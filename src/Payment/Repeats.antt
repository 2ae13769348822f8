-- ===== src/Payment/Repeats.antt =====
-- A request that is sent again after it has been answered, through the whole of `process_payment`.
use tenant_billing_service.Base.{
  ℕ, ◌≡◌, refl, ap, inl, inr, String, Bool, true, List, [], ◌∷◌, ◌++◌, eq_refl, ==_iff,
  select_unique,
}
use tenant_billing_service.Errors.{ok}
use tenant_billing_service.Model.Payment.{PaymentAttempt}
use tenant_billing_service.Model.Tenant.{Business}
use tenant_billing_service.Model.Db.{Db}
use tenant_billing_service.Session.{PspRequest, open_session, clean}
use tenant_billing_service.World.{World, Draws}
use tenant_billing_service.Psp.{read_outcome}
use tenant_billing_service.Payment.{request_of, process_payment}
use tenant_billing_service.Payment.Attempts.{find_attempts, attempts_by_id, has_id, has_key}
use tenant_billing_service.Payment.Start.{started, hash_request_body, start_payment}
use tenant_billing_service.Payment.Resolve.{resolve_payment}
use tenant_billing_service.Payment.Outcomes.{Ends, Begins}
use tenant_billing_service.Payment.Effects.{resolve_payment-Effect}
use tenant_billing_service.Payment.Idempotent.{Holds, Effect-Holds, begun-Holds}
use tenant_billing_service.Payment.Replay.{process_payment-replay}
use tenant_billing_service.Payment.Composed.{
  start_of, goes_on, answered, answered_cached, ended_same,
}
use tenant_billing_service.Payment.Durable.{IsHeld, start-IsHeld, resolve_at}

-- The attempt with a key is the attempt with its identifier.
Holds-IsHeld :
    (i : ℕ) (key h : String) (id : ℕ) (db : Db) (x : PaymentAttempt)
    → Holds i key h id db
    → attempts_by_id id db ≡ x ∷ []
    → IsHeld i key h db x
unfolding find_attempts attempts_by_id
Holds-IsHeld i key h id db x held only =
    let same =
      select_unique (has_key i key) (has_id id) db.payment_attempts held.attempt x [] held.found
        ((==_iff held.attempt.id id).1 held.same_id) only in
    (
      rw held.found (ap (λ (y : PaymentAttempt). y ∷ []) same),
      rw (← same, held.same_hash) (eq_refl h),
    )

module _ (w : World) (d : Draws) (business : Business) (i : ℕ) (token key : String) (db : Db)
    (x : PaymentAttempt) (replayed : Bool)
    (answer : (process_payment w d business i token key (open_session db)).0
      ≡ ok (x, replayed)) where
  abbrev After : Db
  After = (process_payment w d business i token key (open_session db)).1.committed

  fresh-IsHeld :
      Begins w business i token key db
        (start_payment w d business i token key (open_session db)).0
        (start_payment w d business i token key (open_session db)).1
      → IsHeld i key (hash_request_body w token) After x
  fresh-IsHeld b =
      let db' = record db { payment_attempts = db.payment_attempts ++ b.attempt ∷ [] } in
      let begun : start_payment w d business i token key (open_session db)
          ≡ (ok (started b.attempt b.invoice), open_session db') =
        λ j. (b.result j, b.written j) in
      let outcome = read_outcome (w.post [] (request_of b.attempt)) in
      let sent = request_of b.attempt ∷ [] in
      let resolved =
        (resolve_payment w d business i b.invoice b.attempt outcome (clean db' sent)).1.committed in
      let got =
        (answered business w d i token key db b.attempt b.invoice db' x replayed begun answer).0 in
      let held =
        Effect-Holds i key (hash_request_body w token) b.attempt.id (d.clock 1) db' resolved
          (resolve_payment-Effect w d business i b.invoice b.attempt db' sent outcome)
          (begun-Holds w business i token key d db b.attempt b.invoice (open_session db') begun) in
      rw (goes_on business w d i token key db b.attempt b.invoice db' begun) (
        Holds-IsHeld i key (hash_request_body w token) b.attempt.id resolved x held (
          resolve_at w d business i b.invoice b.attempt db' sent x outcome
            (attempts_by_id b.attempt.id db') refl got))

  cached-IsHeld :
      let begun = start_payment w d business i token key (open_session db) in
      Ends begun.0 → begun.1 ≡ open_session db → IsHeld i key (hash_request_body w token) After x
  cached-IsHeld ends same =
      let begun = start_payment w d business i token key (open_session db) in
      let got =
        (answered_cached business w d i token key db begun.0 begun.1 x replayed refl ends
          answer).0 in
      rw (ended_same business w d i token key db ends same)
        (start-IsHeld w d business i token key db x (find_attempts i key db) refl got)

  answered-IsHeld : IsHeld i key (hash_request_body w token) After x
  answered-IsHeld = elim (start_of business w d i token key db (find_attempts i key db) refl) [
    | inl b ↦ fresh-IsHeld b
    | inr (ends, same) ↦ cached-IsHeld ends same
  ]

  -- If `process_payment`, on any tables and whatever the PSP does, answers with an attempt, then the
  -- same invoice, key and token sent again, by any tenant and with any draws, on the tables that
  -- the first request committed, get that very attempt as cached; the repeat sends the PSP nothing
  -- and changes nothing.
  pub process_payment-repeats :
      (b : Business) (d' : Draws) (sent : List PspRequest)
      → process_payment w d' b i token key
          (clean (process_payment w d business i token key (open_session db)).1.committed sent)
        ≡ (
          ok (x, true),
          clean (process_payment w d business i token key (open_session db)).1.committed sent,
        )
  process_payment-repeats b d' sent =
      let (found, same_hash) = answered-IsHeld in
      rw (process_payment-replay w d' b i token key (clean After sent) x found, same_hash) refl
