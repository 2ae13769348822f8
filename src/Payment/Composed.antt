-- ===== src/Payment/Composed.antt =====
-- The two transactions of a payment and the call between them, put together.
use mathlib.Core.Path.{subst, sym, ap}
use tenant_billing_service.Base.{
  ℕ, ◌≡◌, refl, ◌∙◌, ◌⊎◌, inl, inr, String, true, false, Bool, List, [], ◌∷◌, ◌++◌, arith,
}
use tenant_billing_service.Errors.{Result, Result-cases, ok, err}
use tenant_billing_service.Model.Invoice.{Invoice}
use tenant_billing_service.Model.Payment.{PaymentAttempt}
use tenant_billing_service.Model.Tenant.{Business}
use tenant_billing_service.Model.Db.{Db}
use tenant_billing_service.Session.{Session, PspRequest, open_session, clean}
use tenant_billing_service.World.{World, Draws}
use tenant_billing_service.Psp.{charge, read_outcome, ChargeOutcome}
use tenant_billing_service.Payment.{request_of, process_payment}
use tenant_billing_service.Payment.Attempts.{find_attempts}
use tenant_billing_service.Payment.Start.{
  Started, cached, started, find_invoices, lock_and_insert, replay_attempt, start_payment,
}
use tenant_billing_service.Payment.Resolve.{resolve_payment}
use tenant_billing_service.Payment.Outcomes.{Ends, Begins, lock_and_insert-cases}

module _ (business : Business) (w : World) (d : Draws) (i : ℕ) (token key : String) (db : Db) where
  -- Steps 1 and 2 begin a payment, or leave the tables.
  pub start_of :
      (rows : List PaymentAttempt)
      → find_attempts i key db ≡ rows
      → let (r, s) = start_payment w d business i token key (open_session db) in
        Begins w business i token key db r s ⊎ (Ends r × (s ≡ open_session db))
  unfolding start_payment replay_attempt
  start_of [] found =
      subst
        (λ (p : Result Started × Session).
          Begins w business i token key db p.0 p.1 ⊎ (Ends p.0 × (p.1 ≡ open_session db)))
        {x = lock_and_insert w d business i token key (open_session db)} (ground arith)
        (lock_and_insert-cases w d business i token key db)
  start_of (x ∷ []) found = inr (ground arith, ground arith)
  start_of (x ∷ y ∷ rows) found = inr (ground arith, ground arith)

  pub ended :
      (r : Result Started) (s : Session)
      → start_payment w d business i token key (open_session db) ≡ (r, s)
      → Ends r
      → (process_payment w d business i token key (open_session db)).1 ≡ s
  unfolding process_payment
  ended (ok (cached a)) s begun ends = ground arith
  ended (ok (started a invoice)) s begun ends = absurd ends
  ended (err e) s begun ends = ground arith

  pub goes_on :
      (a : PaymentAttempt) (invoice : Invoice) (db' : Db)
      → start_payment w d business i token key (open_session db)
        ≡ (ok (started a invoice), open_session db')
      → (process_payment w d business i token key (open_session db)).1.committed
        ≡ (resolve_payment w d business i invoice a
            (read_outcome (w.post [] (request_of a)))
            (clean db' (request_of a ∷ []))).1.committed
  unfolding process_payment charge
  goes_on a invoice db' begun =
      let resolved =
        resolve_payment w d business i invoice a (read_outcome (w.post [] (request_of a)))
          (clean db' (request_of a ∷ [])) in
      elim (Result-cases resolved.0) [
        | inl (x, done) ↦ ground arith
        | inr (e, failed) ↦ ground arith
      ]

  -- A payment that ends before the PSP leaves the tables.
  pub ended_same :
      let begun = start_payment w d business i token key (open_session db) in
      Ends begun.0
      → begun.1 ≡ open_session db
      → (process_payment w d business i token key (open_session db)).1.committed ≡ db
  ended_same ends same =
      let begun = start_payment w d business i token key (open_session db) in
      ap (λ (s : Session). s.committed) (ended begun.0 begun.1 refl ends ∙ same)

  -- What holds of the tables, and after the second transaction of a payment for an invoice that was
  -- found, whatever the PSP's outcome, holds of what a payment commits.
  pub process_payment-holds :
      (P : Db → Type 0)
      → P db
      → ((a : PaymentAttempt) (invoice : Invoice) (outcome : ChargeOutcome) (sent : List PspRequest)
          → find_invoices business.id i db ≡ invoice ∷ []
          → P
              (resolve_payment w d business i invoice a outcome (
                clean
                  (record db { payment_attempts = db.payment_attempts ++ a ∷ [] })
                  sent)).1.committed)
      → P (process_payment w d business i token key (open_session db)).1.committed
  process_payment-holds P now later =
      let begun = start_payment w d business i token key (open_session db) in
      elim (start_of (find_attempts i key db) refl) [
        | inl b ↦
            let db' = record db { payment_attempts = db.payment_attempts ++ b.attempt ∷ [] } in
            subst P (sym (goes_on b.attempt b.invoice db' (λ j. (b.result j, b.written j)))) (
              later b.attempt b.invoice (read_outcome (w.post [] (request_of b.attempt)))
                (request_of b.attempt ∷ []) b.found)
        | inr (ends, same) ↦ subst P (sym (ended_same ends same)) now
      ]

  -- A payment that goes on and answers, answers with what the second transaction returns.
  pub answered :
      (a : PaymentAttempt) (invoice : Invoice) (db' : Db) (x : PaymentAttempt) (replayed : Bool)
      → start_payment w d business i token key (open_session db)
        ≡ (ok (started a invoice), open_session db')
      → (process_payment w d business i token key (open_session db)).0 ≡ ok (x, replayed)
      → ((resolve_payment w d business i invoice a
            (read_outcome (w.post [] (request_of a)))
            (clean db' (request_of a ∷ []))).0
          ≡ ok x)
        × (replayed ≡ false)
  unfolding process_payment charge
  answered a invoice db' x replayed begun got =
      let resolved =
        resolve_payment w d business i invoice a (read_outcome (w.post [] (request_of a)))
          (clean db' (request_of a ∷ [])) in
      elim (Result-cases resolved.0) [
        | inl (y, done) ↦ ground arith
        | inr (e, failed) ↦ ground arith
      ]

  -- A payment that ends before the PSP and answers, answers with a cached attempt.
  pub answered_cached :
      (r : Result Started) (s : Session) (x : PaymentAttempt) (replayed : Bool)
      → start_payment w d business i token key (open_session db) ≡ (r, s)
      → Ends r
      → (process_payment w d business i token key (open_session db)).0 ≡ ok (x, replayed)
      → (r ≡ ok (cached x)) × (replayed ≡ true)
  unfolding process_payment
  answered_cached (ok (cached a)) s x replayed begun ends got = ground arith
  answered_cached (ok (started a invoice)) s x replayed begun ends got = absurd ends
  answered_cached (err e) s x replayed begun ends got = ground arith
