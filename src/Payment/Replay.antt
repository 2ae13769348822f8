-- ===== src/Payment/Replay.antt =====
-- Idempotency and refusals of `process_payment`: which requests reach neither the PSP nor the
-- tables.
use Prim.Native.String.{◌++◌}
use tenant_billing_service.Base.{
  ℕ, ◌<◌, String, ◌≡◌, ◌≢◌, true, false, some, none, [], ◌∷◌, arith, str_eq, any, any-select,
  if◌then◌else◌, refl,
}
use tenant_billing_service.Errors.{
  ok, err, AppError, integrity, database, Constraint, invalid_state_transition,
  idempotency_conflict, not_found, uq_payment_attempts_one_pending_per_invoice,
  ck_payment_attempts_amount_pos,
}
use tenant_billing_service.Model.Invoice.{Invoice, open_, paid}
use tenant_billing_service.Model.Payment.{PaymentAttempt}
use tenant_billing_service.Model.Tenant.{Business}
use tenant_billing_service.Session.{Session}
use tenant_billing_service.World.{World, Draws}
use tenant_billing_service.Machine.{assert_transition_allowed}
use tenant_billing_service.Machine.Laws.{refusal, not_open_refused}
use tenant_billing_service.Payment.Attempts.{
  find_attempts, is_one_pending, is_pending_on, has_id, has_key, fits_columns, insert_attempt,
}
use tenant_billing_service.Payment.Insert.{
  insert_attempt-violated, violated-one_pending, violated-amount,
}
use tenant_billing_service.Payment.Start.{
  hash_request_body, find_invoices, new_attempt, in_progress, start_payment, lock_and_insert,
  flush_attempt, lost_race, replay_attempt,
}
use tenant_billing_service.Payment.{process_payment}

-- The handler tells the two unique constraints apart by the name in the message.
is_one_pending-true : is_one_pending uq_payment_attempts_one_pending_per_invoice ≡ true
unfolding is_one_pending
is_one_pending-true = refl

is_one_pending-false : is_one_pending ck_payment_attempts_amount_pos ≡ false
unfolding is_one_pending
is_one_pending-false = refl

abbrev pub already_in_progress : AppError
already_in_progress =
    invalid_state_transition
      (record { from_state = "open"; to_state = "paid"; reason = some in_progress })

flush_attempt-in_progress :
    (w : World) (a : PaymentAttempt) (invoice : Invoice) (s : Session) (c : Constraint)
    → insert_attempt w a s ≡ (err (database (integrity c)), s)
    → is_one_pending c ≡ true
    → flush_attempt w a invoice s ≡ (err already_in_progress, record s { working = s.committed })
unfolding flush_attempt lost_race
flush_attempt-in_progress w a invoice s c refused named = ground arith

flush_attempt-conflict :
    (w : World) (a : PaymentAttempt) (invoice : Invoice) (s : Session) (c : Constraint)
    → insert_attempt w a s ≡ (err (database (integrity c)), s)
    → is_one_pending c ≡ false
    → find_attempts a.invoice_id a.idempotency_key s.committed ≡ []
    → flush_attempt w a invoice s ≡ (err idempotency_conflict, record s { working = s.committed })
unfolding flush_attempt lost_race
flush_attempt-conflict w a invoice s c refused named nobody = ground arith

module _ (w : World) (d : Draws) (business : Business) (invoice_id : ℕ) (card_token key : String)
    (s : Session) where
  -- The attempt that step 2 inserts for an invoice.
  abbrev pub attempt_for : Invoice → PaymentAttempt
  attempt_for invoice =
      new_attempt (d.uuid 0) (d.clock 0) invoice_id invoice card_token key
        (hash_request_body w card_token)

  -- If an attempt has the invoice and the key, then `process_payment` changes nothing and sends
  -- the PSP nothing, whoever asks: it returns that attempt as cached where the body hash is the
  -- same, and raises the idempotency conflict where it is another.
  pub process_payment-replay :
      (a : PaymentAttempt)
      → find_attempts invoice_id key s.working ≡ a ∷ []
      → process_payment w d business invoice_id card_token key s ≡ (
        (if str_eq a.request_hash (hash_request_body w card_token)
            then ok (a, true)
            else err idempotency_conflict),
        s,
      )
  unfolding process_payment start_payment replay_attempt
  process_payment-replay a found = ground arith

  -- With a new key, and no invoice of that identifier for the business (another tenant's counts as
  -- none), `process_payment` raises not-found with the invoice's identifier, and changes and sends
  -- nothing.
  pub process_payment-no_invoice :
      find_attempts invoice_id key s.working ≡ []
      → find_invoices business.id invoice_id s.working ≡ []
      → process_payment w d business invoice_id card_token key s
        ≡ (err (not_found ("Invoice " ++ (w.uuid_text invoice_id ++ " not found")) none), s)
  unfolding process_payment start_payment lock_and_insert
  process_payment-no_invoice new missing = ground arith

  -- With a new key, an invoice of the business in a state other than `open` makes
  -- `process_payment` raise the invalid transition to `paid`, and change and send nothing.
  process_payment-not_open :
      (invoice : Invoice)
      → find_attempts invoice_id key s.working ≡ []
      → find_invoices business.id invoice_id s.working ≡ invoice ∷ []
      → invoice.state ≢ open_
      → process_payment w d business invoice_id card_token key s
        ≡ (err (invalid_state_transition (refusal invoice.state paid)), s)
  unfolding process_payment start_payment lock_and_insert
  process_payment-not_open invoice new found closed =
      ground (arith, not_open_refused invoice.state closed)

  -- An open invoice and a new key lead to the INSERT of a pending attempt.
  pub start_payment-flush :
      (invoice : Invoice)
      → find_attempts invoice_id key s.working ≡ []
      → find_invoices business.id invoice_id s.working ≡ invoice ∷ []
      → invoice.state ≡ open_
      → start_payment w d business invoice_id card_token key s
        ≡ flush_attempt w (attempt_for invoice) invoice s
  unfolding start_payment lock_and_insert assert_transition_allowed
  start_payment-flush invoice new found is_open = ground arith

  module _ (invoice : Invoice) (new : find_attempts invoice_id key s.working ≡ [])
      (found : find_invoices business.id invoice_id s.working ≡ invoice ∷ [])
      (is_open : invoice.state ≡ open_) (fit : fits_columns (attempt_for invoice) ≡ true)
      (new_id : any (has_id (d.uuid 0)) s.working.payment_attempts ≡ false)
      (reports : (c : Constraint) → w.report c [] ≡ c) where
    new_key : any (has_key invoice_id key) s.working.payment_attempts ≡ false
    unfolding find_attempts
    new_key = any-select (has_key invoice_id key) s.working.payment_attempts new

    -- With a new key and an identifier not yet taken, for an open invoice with a positive total
    -- and values that fit the columns: if another attempt on the invoice is pending, then
    -- `process_payment` raises the invalid transition with the reason that a payment is in
    -- progress, rolls back, and sends the PSP nothing. PostgreSQL is taken to report the one
    -- constraint that is violated.
    pub process_payment-in_progress :
        0 < invoice.total_cents
        → any (is_pending_on invoice_id) s.working.payment_attempts ≡ true
        → process_payment w d business invoice_id card_token key s
          ≡ (err already_in_progress, record s { working = s.committed })
    unfolding process_payment new_attempt
    process_payment-in_progress pos busy = ground (
      arith,
      start_payment-flush invoice new found is_open,
      flush_attempt-in_progress w (attempt_for invoice) invoice s
          uq_payment_attempts_one_pending_per_invoice
          (rw (← reports uq_payment_attempts_one_pending_per_invoice) (
            insert_attempt-violated w (attempt_for invoice) s
              uq_payment_attempts_one_pending_per_invoice [] fit
              (violated-one_pending (attempt_for invoice) s.working.payment_attempts pos new_id
                new_key refl busy)))
          is_one_pending-true,
    )

    -- With a new key and an identifier not yet taken, on a session with nothing uncommitted, for
    -- an open invoice with total 0 and no pending attempt: `process_payment` raises the
    -- idempotency conflict and changes and sends nothing. PostgreSQL is taken to report the one
    -- constraint that is violated.
    pub process_payment-zero_total :
        invoice.total_cents ≡ 0
        → any (is_pending_on invoice_id) s.working.payment_attempts ≡ false
        → s.committed ≡ s.working
        → process_payment w d business invoice_id card_token key s ≡ (err idempotency_conflict, s)
    unfolding process_payment new_attempt
    process_payment-zero_total zero_total idle clean = ground (
      arith,
      start_payment-flush invoice new found is_open,
      flush_attempt-conflict w (attempt_for invoice) invoice s ck_payment_attempts_amount_pos
          (rw (← reports ck_payment_attempts_amount_pos) (
            insert_attempt-violated w (attempt_for invoice) s ck_payment_attempts_amount_pos [] fit
              (violated-amount (attempt_for invoice) s.working.payment_attempts zero_total new_id
                new_key idle)))
          is_one_pending-false (rw clean new),
    )
