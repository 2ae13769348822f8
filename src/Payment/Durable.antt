-- ===== src/Payment/Durable.antt =====
-- What a payment answers with is what the tables hold.
use tenant_billing_service.Base.{ℕ, ◌≡◌, refl, inl, inr, String, true, List, [], ◌∷◌, arith, str_eq}
use tenant_billing_service.Errors.{
  Result, Result-cases, ok, err, AppError, Constraint, database, integrity,
}
use tenant_billing_service.Model.Invoice.{Invoice, paid}
use tenant_billing_service.Model.Payment.{PaymentAttempt}
use tenant_billing_service.Model.Tenant.{Business}
use tenant_billing_service.Model.Db.{Db}
use tenant_billing_service.Session.{
  Session, Action, PspRequest, open_session, clean, scalar_one, query, lift, commit, ◌>>=◌, ◌>>◌,
}
use tenant_billing_service.World.{World, Draws}
use tenant_billing_service.Machine.{assert_transition_allowed}
use tenant_billing_service.Psp.{ChargeOutcome, charged, failed_with, raised}
use tenant_billing_service.Payment.Attempts.{find_attempts, insert_attempt, attempts_by_id}
use tenant_billing_service.Payment.Insert.{insert_attempt-cases}
use tenant_billing_service.Payment.Start.{
  cached, find_invoices, lock_and_insert, flush_attempt, lost_race, new_attempt, hash_request_body,
  replay_attempt, start_payment,
}
use tenant_billing_service.Payment.Resolve.{resolve_payment, settle}
use tenant_billing_service.Payment.Outcomes.{lock_and_insert-open}

-- The one attempt with the key, for a body with the hash.
abbrev pub IsHeld : ℕ → String → String → Db → PaymentAttempt → Type 0
IsHeld i key h db a = (find_attempts i key db ≡ a ∷ []) × (str_eq a.request_hash h ≡ true)

one_row : (rows : List PaymentAttempt) (a : PaymentAttempt) → scalar_one rows ≡ ok a → rows ≡ a ∷ []
one_row [] a h = cc
one_row (x ∷ []) a h = ground arith
one_row (x ∷ y ∷ rows) a h = cc

-- A cached attempt that a lost race leads to.
lost_race-IsHeld :
    (i : ℕ) (key h : String) (c : Constraint) (s : Session) (rows : List PaymentAttempt)
    (a : PaymentAttempt)
    → find_attempts i key s.working ≡ rows
    → (lost_race i key h c s).0 ≡ ok (cached a)
    → IsHeld i key h s.working a
unfolding lost_race
lost_race-IsHeld i key h c s [] a found got = ground arith
lost_race-IsHeld i key h c s (x ∷ []) a found got = ground arith
lost_race-IsHeld i key h c s (x ∷ y ∷ rows) a found got = ground arith

flush_refused-IsHeld :
    (w : World) (x : PaymentAttempt) (invoice : Invoice) (db : Db) (a : PaymentAttempt)
    (e : AppError)
    → insert_attempt w x (open_session db) ≡ (err e, open_session db)
    → (flush_attempt w x invoice (open_session db)).0 ≡ ok (cached a)
    → IsHeld x.invoice_id x.idempotency_key x.request_hash db a
unfolding flush_attempt
flush_refused-IsHeld w x invoice db a (database (integrity c)) e got =
    lost_race-IsHeld x.invoice_id x.idempotency_key x.request_hash c (open_session db)
      (find_attempts x.invoice_id x.idempotency_key db) a refl (rw e at got)
flush_refused-IsHeld w x invoice db a _ e got = cc (rw e at got)

flush_attempt-IsHeld :
    (w : World) (x : PaymentAttempt) (invoice : Invoice) (db : Db) (a : PaymentAttempt)
    → (flush_attempt w x invoice (open_session db)).0 ≡ ok (cached a)
    → IsHeld x.invoice_id x.idempotency_key x.request_hash db a
unfolding flush_attempt
flush_attempt-IsHeld w x invoice db a got = elim (insert_attempt-cases w x (open_session db)) [
  | inl (e, admits) ↦ cc (rw e at got)
  | inr (e', e) ↦ flush_refused-IsHeld w x invoice db a e' e got
]

module _ (w : World) (d : Draws) (business : Business) (i : ℕ) (token key : String) (db : Db)
    (a : PaymentAttempt) where
  lock-IsHeld :
      (rows : List Invoice)
      → find_invoices business.id i db ≡ rows
      → (lock_and_insert w d business i token key (open_session db)).0 ≡ ok (cached a)
      → IsHeld i key (hash_request_body w token) db a
  unfolding lock_and_insert new_attempt
  lock-IsHeld [] found got = ground arith
  lock-IsHeld (invoice ∷ []) found got =
      elim (Result-cases (assert_transition_allowed invoice.state paid)) [
        | inl (_, allowed) ↦
            flush_attempt-IsHeld w
              (new_attempt (d.uuid 0) (d.clock 0) i invoice token key (hash_request_body w token))
              invoice db a
              (rw (lock_and_insert-open w d business i token key db invoice found allowed) at got)
        | inr (e, refused) ↦ ground arith
      ]
  lock-IsHeld (x ∷ y ∷ rest) found got = ground arith

  pub start-IsHeld :
      (rows : List PaymentAttempt)
      → find_attempts i key db ≡ rows
      → (start_payment w d business i token key (open_session db)).0 ≡ ok (cached a)
      → IsHeld i key (hash_request_body w token) db a
  unfolding start_payment replay_attempt
  start-IsHeld [] found got = lock-IsHeld (find_invoices business.id i db) refl (ground arith)
  start-IsHeld (x ∷ []) found got = ground arith
  start-IsHeld (x ∷ y ∷ rows) found got = ground arith

-- What an action that ends in a commit and a refresh answers with is in the tables.
refreshed_held :
    (m : Action (Unit {0})) (id : ℕ) (x : PaymentAttempt) (s s' : Session) (r : Result (Unit {0}))
    → m s ≡ (r, s')
    → let (res, after) =
        (m >> (commit >> (query (attempts_by_id id) >>= (λ rows. lift (scalar_one rows))))) s in
      res ≡ ok x → attempts_by_id id after.committed ≡ x ∷ []
refreshed_held m id x s s' (ok _) e got = ground (arith, one_row (attempts_by_id id s'.working) x)
refreshed_held m id x s s' (err e') e got = ground arith

module _ (w : World) (d : Draws) (business : Business) (i : ℕ) (loaded : Invoice)
    (a : PaymentAttempt) (db : Db) (sent : List PspRequest) (x : PaymentAttempt) where
  pub resolve_at :
      (outcome : ChargeOutcome) (rows : List PaymentAttempt)
      → attempts_by_id a.id db ≡ rows
      → let (r, s) = resolve_payment w d business i loaded a outcome (clean db sent) in
        r ≡ ok x → attempts_by_id a.id s.committed ≡ x ∷ []
  unfolding resolve_payment
  resolve_at raised rows found got = cc
  resolve_at (failed_with e) [] found got = ground arith
  resolve_at (failed_with e) (y ∷ z ∷ rows) found got = ground arith
  resolve_at (failed_with e) (current ∷ []) found got = rw found (
      refreshed_held (settle w d business i loaded current (failed_with e)) a.id x (clean db sent) _
        _ refl (rw found at got))
  resolve_at (charged r) [] found got = ground arith
  resolve_at (charged r) (y ∷ z ∷ rows) found got = ground arith
  resolve_at (charged r) (current ∷ []) found got = rw found (
      refreshed_held (settle w d business i loaded current (charged r)) a.id x (clean db sent) _ _
        refl (rw found at got))
