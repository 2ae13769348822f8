-- ===== src/Tests/Payment.antt =====
-- Payments on the small world, as tests/test_idempotency.py and tests/test_psp_failures.py run them.
use tenant_billing_service.Base.{ℕ, String, Bool, false, true, some, ◌≡◌, refl, [], ◌∷◌, List, map}
use tenant_billing_service.Errors.{Result, ok, err, idempotency_conflict}
use tenant_billing_service.Model.Invoice.{InvoiceState, Invoice, paid, open_}
use tenant_billing_service.Model.Payment.{PaymentAttempt, PaymentStatus, pending, succeeded, failed}
use tenant_billing_service.Session.{Session, Action, clean}
use tenant_billing_service.Machine.{allowed_transitions, assert_transition_allowed}
use tenant_billing_service.Psp.{charge, read_outcome, failure_code_from_psp_error}
use tenant_billing_service.Outbox.{enqueue_event, active_endpoints, new_deliveries}
use tenant_billing_service.Payment.{process_payment}
use tenant_billing_service.Payment.Attempts.{
  find_attempts, insert_attempt, violated, fits_columns, is_one_pending, attempts_by_id,
  save_attempt,
}
use tenant_billing_service.Payment.Start.{
  start_payment, replay_attempt, lock_and_insert, find_invoices, flush_attempt, new_attempt,
  hash_request_body, lost_race,
}
use tenant_billing_service.Payment.Resolve.{
  resolve_payment, settle, settle_succeeded, settle_declined, invoices_by_id, set_invoice_state,
}
use tenant_billing_service.Payment.Repeats.{process_payment-repeats}
use tenant_billing_service.Tests.World.{
  mock_psp, small_world, draws_from, acme, start, start_db, pending_attempt,
}

pay : ℕ → String → String → Action (PaymentAttempt × Bool)
unfolding mock_psp process_payment start_payment replay_attempt lock_and_insert find_invoices
    flush_attempt new_attempt hash_request_body lost_race find_attempts insert_attempt violated
    fits_columns is_one_pending attempts_by_id save_attempt resolve_payment settle settle_succeeded
    settle_declined invoices_by_id set_invoice_state charge read_outcome failure_code_from_psp_error
    enqueue_event active_endpoints new_deliveries allowed_transitions assert_transition_allowed
pay n token key = process_payment small_world (draws_from n) acme 30 token key

status_of : Result (PaymentAttempt × Bool) → List PaymentStatus
status_of (ok (a, _)) = a.status ∷ []
status_of (err _) = []

abbrev states : Session → List InvoiceState
states s = map (λ (i : Invoice). i.state) s.committed.invoices

pay_success :
    let (r, s) = pay 100 "tok_success" "k1" start in
    (status_of r ≡ succeeded ∷ []) × (states s ≡ paid ∷ [])
unfolding pay status_of
pay_success = (refl, refl)

pay_declined_twice :
    let (r, s) = pay 100 "tok_card_declined" "k1" start in
    let (r', s') = pay 200 "tok_success" "k1" s in
    let (r'', s'') = pay 300 "tok_success" "k2" s in
    (status_of r ≡ failed ∷ [])
    × (r' ≡ err idempotency_conflict)
    × (status_of r'' ≡ succeeded ∷ [])
    × (states s'' ≡ paid ∷ [])
unfolding pay status_of
pay_declined_twice = (refl, refl, refl, refl)

pay_timeout :
    let (r, s) = pay 100 "tok_timeout" "k1" start in
    let (r', s') = pay 200 "tok_success" "k2" s in
    (status_of r ≡ pending ∷ []) × (states s' ≡ open_ ∷ []) × (status_of r' ≡ [])
unfolding pay status_of
pay_timeout = (refl, refl, refl)

abbrev paid_attempt : PaymentAttempt
paid_attempt = record pending_attempt { status = succeeded; psp_ref = some "ref"; updated_at = 101 }

first_answer :
    (process_payment small_world (draws_from 100) acme 30 "tok_success" "k1" start).0
    ≡ ok (paid_attempt, false)
unfolding mock_psp process_payment start_payment replay_attempt lock_and_insert find_invoices
    flush_attempt new_attempt hash_request_body lost_race find_attempts insert_attempt violated
    fits_columns is_one_pending attempts_by_id save_attempt resolve_payment settle settle_succeeded
    settle_declined invoices_by_id set_invoice_state charge read_outcome failure_code_from_psp_error
    enqueue_event active_endpoints new_deliveries allowed_transitions assert_transition_allowed
first_answer = refl

process_payment-repeats_example :
    let paid_db =
      (process_payment small_world (draws_from 100) acme 30 "tok_success" "k1" start).1.committed in
    process_payment small_world (draws_from 200) acme 30 "tok_success" "k1" (clean paid_db [])
    ≡ (ok (paid_attempt, true), clean paid_db [])
process_payment-repeats_example =
    process_payment-repeats small_world (draws_from 100) acme 30 "tok_success" "k1" start_db
      paid_attempt false first_answer acme (draws_from 200) []
