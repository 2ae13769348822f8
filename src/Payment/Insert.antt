-- ===== src/Payment/Insert.antt =====
-- The INSERT of a payment attempt: the constraints decide between a new row and an exception.
use tenant_billing_service.Base.{
  ◌<◌, ◌≡◌, refl, ◌⊎◌, inl, inr, true, false, ◌&&◌, List, [], ◌∷◌, ◌++◌, arith, any, Bool-cases,
}
use tenant_billing_service.Errors.{
  ok, err, AppError, Constraint, database, data_error, integrity,
  uq_payment_attempts_one_pending_per_invoice, ck_payment_attempts_amount_pos,
}
use tenant_billing_service.Model.Payment.{PaymentAttempt, is_pending}
use tenant_billing_service.Session.{Session}
use tenant_billing_service.World.{World}
use tenant_billing_service.Payment.Attempts.{
  has_id, has_key, is_pending_on, violated, fits_columns, insert_attempt,
}

-- What holds of a row and a table that has no objection to it.
pub record Admits (a : PaymentAttempt) (rows : List PaymentAttempt) : Type 0 where
  pub amount_pos : 0 < a.amount_cents
  pub new_id : any (has_id a.id) rows ≡ false
  pub new_key : any (has_key a.invoice_id a.idempotency_key) rows ≡ false
  pub one_pending : (is_pending a.status && any (is_pending_on a.invoice_id) rows) ≡ false

violated-nil :
    (a : PaymentAttempt) (rows : List PaymentAttempt) → violated a rows ≡ [] → Admits a rows
unfolding violated
violated-nil a rows h = ground arith

abbrev pub with_attempt : PaymentAttempt → Session → Session
with_attempt a s = record s {
  working = record (s.working) { payment_attempts = s.working.payment_attempts ++ a ∷ [] };
}

module _ (w : World) (a : PaymentAttempt) (s : Session) where
  pub insert_attempt-admitted :
      fits_columns a ≡ true
      → violated a s.working.payment_attempts ≡ []
      → insert_attempt w a s ≡ (ok tt, with_attempt a s)
  unfolding insert_attempt
  insert_attempt-admitted fit none_violated = ground arith

  pub insert_attempt-violated :
      (c : Constraint) (others : List Constraint)
      → fits_columns a ≡ true
      → violated a s.working.payment_attempts ≡ c ∷ others
      → insert_attempt w a s ≡ (err (database (integrity (w.report c others))), s)
  unfolding insert_attempt
  insert_attempt-violated c others fit some_violated = ground arith

  insert_attempt-too_wide :
      fits_columns a ≡ false → insert_attempt w a s ≡ (err (database data_error), s)
  unfolding insert_attempt
  insert_attempt-too_wide wide = ground arith

  abbrev Outcome : Type 0
  Outcome =
      ((insert_attempt w a s ≡ (ok tt, with_attempt a s)) × Admits a s.working.payment_attempts)
      ⊎ ((e : AppError) × (insert_attempt w a s ≡ (err e, s)))

  by_violations :
      fits_columns a ≡ true
      → (v : List Constraint) → violated a s.working.payment_attempts ≡ v
      → Outcome
  by_violations fit [] e =
      inl (insert_attempt-admitted fit e, violated-nil a s.working.payment_attempts e)
  by_violations fit (c ∷ cs) e =
      inr (database (integrity (w.report c cs)), insert_attempt-violated c cs fit e)

  -- An INSERT adds the row that the table admits, or raises and changes nothing.
  pub insert_attempt-cases :
      ((insert_attempt w a s ≡ (ok tt, with_attempt a s)) × Admits a s.working.payment_attempts)
      ⊎ ((e : AppError) × (insert_attempt w a s ≡ (err e, s)))
  insert_attempt-cases = elim (Bool-cases (fits_columns a)) [
    | inr wide ↦ inr (database data_error, insert_attempt-too_wide wide)
    | inl fit ↦ by_violations fit (violated a s.working.payment_attempts) refl
  ]

pub violated-one_pending :
    (a : PaymentAttempt) (rows : List PaymentAttempt)
    → 0 < a.amount_cents
    → any (has_id a.id) rows ≡ false
    → any (has_key a.invoice_id a.idempotency_key) rows ≡ false
    → is_pending a.status ≡ true
    → any (is_pending_on a.invoice_id) rows ≡ true
    → violated a rows ≡ uq_payment_attempts_one_pending_per_invoice ∷ []
unfolding violated
violated-one_pending a rows pos new_id new_key p busy = ground arith

pub violated-amount :
    (a : PaymentAttempt) (rows : List PaymentAttempt)
    → a.amount_cents ≡ 0
    → any (has_id a.id) rows ≡ false
    → any (has_key a.invoice_id a.idempotency_key) rows ≡ false
    → any (is_pending_on a.invoice_id) rows ≡ false
    → violated a rows ≡ ck_payment_attempts_amount_pos ∷ []
unfolding violated
violated-amount a rows zero_amount new_id new_key idle = ground arith
