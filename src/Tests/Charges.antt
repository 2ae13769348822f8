-- ===== src/Tests/Charges.antt =====
-- Requests at the same time on the small world, as tests/test_concurrency.py runs them, and the
-- interleavings that it does not try.
use tenant_billing_service.Base.{
  arith, ◌⊎◌, select, ◌++◌, ℕ, ◌≡◌, refl, ◌≤◌, String, List, [], ◌∷◌, count, All, map,
}
use tenant_billing_service.Model.Invoice.{draft, open_, Invoice, InvoiceState, paid, void}
use tenant_billing_service.Model.Payment.{PaymentAttempt, PaymentStatus, succeeded}
use tenant_billing_service.Model.Db.{Db}
use tenant_billing_service.Machine.{assert_transition_allowed, allowed_transitions}
use tenant_billing_service.Psp.{charged}
use tenant_billing_service.Outbox.{enqueue_event, active_endpoints, new_deliveries}
use tenant_billing_service.Payment.Attempts.{
  find_attempts, insert_attempt, violated, fits_columns, is_one_pending, attempts_by_id,
  save_attempt,
}
use tenant_billing_service.Payment.Start.{
  lock_and_insert, find_invoices, flush_attempt, new_attempt, hash_request_body, lost_race,
}
use tenant_billing_service.Payment.Resolve.{
  has_invoice_id, resolve_payment, settle, settle_succeeded, invoices_by_id, set_invoice_state,
}
use tenant_billing_service.Invoices.{
  LoadedInvoice, check_transition, get_invoice, write_transition, load_invoice,
  transition_invoice_state,
}
use tenant_billing_service.Invoices.Outcomes.{with_state}
use tenant_billing_service.Schedule.{
  System, Event, begin, resolve, crash, check, update, transition, step, run,
}
use tenant_billing_service.Schedule.Rows.{is_live_on, is_succeeded_on}
use tenant_billing_service.Schedule.Charges.{one_charge}
use tenant_billing_service.Schedule.Pending.{OnePending, run-OnePending}
use tenant_billing_service.Schedule.Races.{interrupted_transition-overwrites}
use tenant_billing_service.Tests.World.{small_world, draws_from, acme, open_invoice, start_db}
use tenant_billing_service.Tests.Resolutions.{success}

abbrev start_system : System
start_system = record { db = start_db; flights = []; writers = [] }

abbrev pay_once : String → ℕ → List Event
pay_once key n =
    begin (draws_from n) acme 30 "tok_success" key ∷ resolve 0 (draws_from n) (charged success) ∷ []

-- Two payments at the same time, a transition, and a third payment.
abbrev busy : List Event
busy =
    begin (draws_from 100) acme 30 "tok_success" "k1"
    ∷ begin (draws_from 200) acme 30 "tok_success" "k2"
    ∷ resolve 0 (draws_from 100) (charged success)
    ∷ transition (draws_from 300) acme 30 void
    ∷ begin (draws_from 400) acme 30 "tok_success" "k3"
    ∷ crash 0
    ∷ []

one_charge_example :
    let db = (run small_world start_system busy).db in
    (count (is_live_on 30) db.payment_attempts ≤ 1)
    × ((count (is_succeeded_on 30) db.payment_attempts ≡ 0)
        ⊎ All (λ x. x.state ≡ paid) (select (has_invoice_id 30) db.invoices))
one_charge_example =
    one_charge small_world start_system busy refl refl (tt, (tt, (tt, (tt, (tt, (tt, tt)))))) 30

run_here : List Event → Db
unfolding run step lock_and_insert find_invoices flush_attempt new_attempt hash_request_body
    find_attempts insert_attempt violated fits_columns is_one_pending lost_race allowed_transitions
    assert_transition_allowed resolve_payment settle settle_succeeded invoices_by_id
    set_invoice_state attempts_by_id save_attempt enqueue_event active_endpoints new_deliveries
    check_transition get_invoice write_transition load_invoice transition_invoice_state
run_here events = (run small_world start_system events).db

abbrev states : Db → List InvoiceState
states db = map (λ (i : Invoice). i.state) db.invoices

abbrev statuses : Db → List PaymentStatus
statuses db = map (λ (a : PaymentAttempt). a.status) db.payment_attempts

busy_run : (states (run_here busy) ≡ paid ∷ []) × (statuses (run_here busy) ≡ succeeded ∷ [])
unfolding run_here
busy_run = (refl, refl)

abbrev paid_invoice : Invoice
paid_invoice = record open_invoice { state = paid; updated_at = 101 }

abbrev found : LoadedInvoice
found = record { invoice = open_invoice; line_items = [] }

-- A payment while a void waits for its UPDATE: the paid invoice becomes void.
interrupted_transition-overwrites_example :
    let later =
      run small_world (step small_world start_system (check acme 30 void)) (pay_once "k1" 100) in
    invoices_by_id 30 (step small_world later (update 0 500)).db
    ≡ with_state 500 void paid_invoice ∷ []
unfolding run step lock_and_insert find_invoices flush_attempt new_attempt hash_request_body
    find_attempts insert_attempt violated fits_columns is_one_pending lost_race allowed_transitions
    assert_transition_allowed resolve_payment settle settle_succeeded invoices_by_id
    set_invoice_state attempts_by_id save_attempt enqueue_event active_endpoints new_deliveries
    check_transition get_invoice
interrupted_transition-overwrites_example =
    interrupted_transition-overwrites small_world start_system acme 30 500 void found refl
      (pay_once "k1" 100) (tt, (tt, tt)) paid_invoice refl

-- Two finalizations that both pass their check on a draft: the second UPDATE opens the paid invoice
-- again, and it is charged twice.
abbrev draft_system : System
draft_system = record {
  db = record start_db { invoices = record open_invoice { state = draft } ∷ [] };
  flights = [];
  writers = [];
}

run_draft : List Event → Db
unfolding run_here run step lock_and_insert find_invoices flush_attempt new_attempt
    hash_request_body find_attempts insert_attempt violated fits_columns is_one_pending lost_race
    allowed_transitions assert_transition_allowed resolve_payment settle settle_succeeded
    invoices_by_id set_invoice_state attempts_by_id save_attempt enqueue_event active_endpoints
    new_deliveries check_transition get_invoice write_transition load_invoice
    transition_invoice_state
run_draft events = (run small_world draft_system events).db

abbrev twice : List Event
twice =
    check acme 30 open_
    ∷ check acme 30 open_
    ∷ update 0 50
    ∷ (pay_once "k1" 100 ++ update 0 150 ∷ pay_once "k2" 200)

charged_twice :
    (statuses (run_draft twice) ≡ succeeded ∷ succeeded ∷ [])
    × (states (run_draft twice) ≡ paid ∷ [])
unfolding run_draft
charged_twice = (refl, refl)

run-OnePending_example : OnePending (run small_world draft_system twice).db.payment_attempts
run-OnePending_example = run-OnePending small_world draft_system twice (λ i. omega arith)
