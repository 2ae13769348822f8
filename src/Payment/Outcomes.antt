-- ===== src/Payment/Outcomes.antt =====
-- What the two transactions of a payment can do to the tables, on every path.
use tenant_billing_service.Base.{ℕ, String, ◌≡◌, refl, ◌⊎◌, inl, inr, List, [], ◌∷◌, ◌++◌, arith}
use tenant_billing_service.Errors.{
  Result, Result-cases, ok, err, AppError, Constraint, database, integrity,
}
use tenant_billing_service.Model.Invoice.{Invoice, open_, paid}
use tenant_billing_service.Model.Payment.{PaymentAttempt, pending}
use tenant_billing_service.Model.Tenant.{Business}
use tenant_billing_service.Model.Db.{Db}
use tenant_billing_service.Session.{Session, open_session}
use tenant_billing_service.World.{World, Draws}
use tenant_billing_service.Machine.{assert_transition_allowed}
use tenant_billing_service.Machine.Laws.{allowed_paid}
use tenant_billing_service.Payment.Attempts.{insert_attempt, find_attempts}
use tenant_billing_service.Payment.Insert.{Admits, insert_attempt-cases}
use tenant_billing_service.Payment.Start.{
  Started, cached, started, lock_and_insert, flush_attempt, find_invoices, new_attempt, lost_race,
  hash_request_body, start_payment, replay_attempt,
}

-- A result with which no payment goes on to the PSP.
abbrev pub Ends : Result Started → Type 0
Ends (ok (started a invoice)) = ⊥
Ends (ok (cached a)) = Unit
Ends (err e) = Unit

-- The commit of step 2: one new pending attempt, for an open invoice.
pub record Begins (w : World) (business : Business) (invoice_id : ℕ) (token key : String) (db : Db)
    (r : Result Started) (s : Session) : Type 0 where
  pub attempt : PaymentAttempt
  pub invoice : Invoice
  pub result : r ≡ ok (started attempt invoice)
  pub written :
      s ≡ open_session (record db { payment_attempts = db.payment_attempts ++ attempt ∷ [] })
  pub admitted : Admits attempt db.payment_attempts
  pub of_invoice : attempt.invoice_id ≡ invoice_id
  pub of_key : attempt.idempotency_key ≡ key
  pub of_token : attempt.card_token ≡ token
  pub of_hash : attempt.request_hash ≡ hash_request_body w token
  pub is_new : attempt.status ≡ pending
  pub amount : attempt.amount_cents ≡ invoice.total_cents
  pub found : find_invoices business.id invoice_id db ≡ invoice ∷ []
  pub was_open : invoice.state ≡ open_

lost_race-Ends :
    (i : ℕ) (key h : String) (c : Constraint) (s : Session)
    → Ends (lost_race i key h c s).0 × ((lost_race i key h c s).1 ≡ s)
unfolding lost_race
lost_race-Ends i key h c s = ground arith

flush_attempt-refused :
    (w : World) (a : PaymentAttempt) (invoice : Invoice) (db : Db) (e : AppError)
    → insert_attempt w a (open_session db) ≡ (err e, open_session db)
    → let (r, s) = flush_attempt w a invoice (open_session db) in Ends r × (s ≡ open_session db)
unfolding flush_attempt
flush_attempt-refused w a invoice db (database (integrity c)) e = rw e (
    let (ends, same) =
      lost_race-Ends a.invoice_id a.idempotency_key a.request_hash c (open_session db) in
    (ends, same))
flush_attempt-refused w a invoice db _ e = rw e (tt, refl)

flush_attempt-cases :
    (w : World) (a : PaymentAttempt) (invoice : Invoice) (db : Db)
    → let (r, s) = flush_attempt w a invoice (open_session db) in
      ((r ≡ ok (started a invoice))
        × (s ≡ open_session (record db { payment_attempts = db.payment_attempts ++ a ∷ [] }))
        × Admits a db.payment_attempts)
      ⊎ (Ends r × (s ≡ open_session db))
unfolding flush_attempt
flush_attempt-cases w a invoice db = elim (insert_attempt-cases w a (open_session db)) [
  | inl (e, admits) ↦ inl (rw e refl, rw e refl, admits)
  | inr (e', e) ↦ inr (flush_attempt-refused w a invoice db e' e)
]

module _ (w : World) (d : Draws) (business : Business) (i : ℕ) (token key : String) (db : Db) where
  -- For an open invoice the transaction is the INSERT.
  pub lock_and_insert-open :
      (invoice : Invoice)
      → find_invoices business.id i db ≡ invoice ∷ []
      → assert_transition_allowed invoice.state paid ≡ ok tt
      → lock_and_insert w d business i token key (open_session db)
        ≡ flush_attempt w
            (new_attempt (d.uuid 0) (d.clock 0) i invoice token key (hash_request_body w token))
            invoice
            (open_session db)
  unfolding lock_and_insert
  lock_and_insert-open invoice found allowed = ground arith

  abbrev Outcome : Type 0
  Outcome =
      let (r, s) = lock_and_insert w d business i token key (open_session db) in
      Begins w business i token key db r s ⊎ (Ends r × (s ≡ open_session db))

  outcome_found :
      (invoice : Invoice)
      → find_invoices business.id i db ≡ invoice ∷ []
      → assert_transition_allowed invoice.state paid ≡ ok tt
      → Outcome
  unfolding new_attempt
  outcome_found invoice found allowed =
      let a = new_attempt (d.uuid 0) (d.clock 0) i invoice token key (hash_request_body w token) in
      rw (lock_and_insert-open invoice found allowed) (elim (flush_attempt-cases w a invoice db) [
        | inl (result, written, admits) ↦ inl (record {
          attempt = a;
          invoice = invoice;
          result = result;
          written = written;
          admitted = admits;
          of_invoice = refl;
          of_key = refl;
          of_token = refl;
          of_hash = refl;
          is_new = refl;
          amount = refl;
          found = found;
          was_open = allowed_paid invoice.state allowed;
        })
        | inr rest ↦ inr rest
      ])

  outcome_of : (rows : List Invoice) → find_invoices business.id i db ≡ rows → Outcome
  unfolding lock_and_insert
  outcome_of [] found = inr (ground arith)
  outcome_of (invoice ∷ []) found =
      elim (Result-cases (assert_transition_allowed invoice.state paid)) [
        | inl (_, allowed) ↦ outcome_found invoice found allowed
        | inr (e, refused) ↦ inr (ground arith)
      ]
  outcome_of (x ∷ y ∷ rest) found = inr (ground arith)

  -- On any tables, step 2 of a payment either commits one new pending attempt, with the invoice's
  -- total and the request's key, token and hash, for an open invoice of the business, in a table
  -- whose constraints admit it, or leaves the tables as they are and ends the request.
  pub lock_and_insert-cases :
      let (r, s) = lock_and_insert w d business i token key (open_session db) in
      Begins w business i token key db r s ⊎ (Ends r × (s ≡ open_session db))
  lock_and_insert-cases = outcome_of (find_invoices business.id i db) refl

module _ (w : World) (d : Draws) (business : Business) (i : ℕ) (token key : String) (db : Db)
    (a : PaymentAttempt) (invoice : Invoice) (s : Session)
    (begun : start_payment w d business i token key (open_session db)
      ≡ (ok (started a invoice), s)) where
  locked_of :
      (rows : List PaymentAttempt)
      → find_attempts i key db ≡ rows
      → lock_and_insert w d business i token key (open_session db) ≡ (ok (started a invoice), s)
  unfolding start_payment replay_attempt
  locked_of [] found = ground arith
  locked_of (x ∷ []) found = ground arith
  locked_of (x ∷ y ∷ rows) found = ground arith

  -- A payment that goes on to the PSP has gone through step 2.
  pub begun-locked :
      lock_and_insert w d business i token key (open_session db) ≡ (ok (started a invoice), s)
  begun-locked = locked_of (find_attempts i key db) refl

  pub begun-Begins :
      (b : Begins w business i token key db (ok (started a invoice)) s) × (b.attempt ≡ a)
      × (b.invoice ≡ invoice)
  begun-Begins = elim (lock_and_insert-cases w d business i token key db) [
    | inl b ↦ let c = rw begun-locked at b in (c, cc c.result, cc c.result)
    | inr (ends, same) ↦ absurd (rw begun-locked at ends)
  ]
