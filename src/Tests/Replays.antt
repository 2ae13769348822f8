-- ===== src/Tests/Replays.antt =====
-- Repeated and refused payment requests on the small world.
use tenant_billing_service.Base.{◌≡◌, refl, true, [], ◌∷◌, arith, ◌⊎◌}
use tenant_billing_service.Errors.{ok, err, idempotency_conflict}
use tenant_billing_service.Model.Invoice.{Invoice, void}
use tenant_billing_service.Session.{Session, open_session, clean}
use tenant_billing_service.Machine.{assert_transition_allowed, allowed_transitions}
use tenant_billing_service.Psp.{psp_timeout, failed_with}
use tenant_billing_service.Payment.{process_payment}
use tenant_billing_service.Payment.Attempts.{find_attempts, insert_attempt, violated, fits_columns}
use tenant_billing_service.Payment.Start.{
  start_payment, lock_and_insert, find_invoices, flush_attempt, new_attempt, hash_request_body,
  started,
}
use tenant_billing_service.Payment.Resolve.{resolve_payment}
use tenant_billing_service.Payment.Outcomes.{Begins, Ends, lock_and_insert-cases}
use tenant_billing_service.Payment.Replay.{
  already_in_progress, process_payment-replay, process_payment-in_progress,
  process_payment-zero_total,
}
use tenant_billing_service.Payment.Idempotent.{Answers, repeat-resolved}
use tenant_billing_service.Tests.World.{
  small_world, draws_from, acme, globex, open_invoice, start_db, start, pending_attempt, pending_db,
}

begun :
    start_payment small_world (draws_from 100) acme 30 "tok_success" "k1" start
    ≡ (ok (started pending_attempt open_invoice), open_session pending_db)
unfolding start_payment lock_and_insert find_invoices flush_attempt new_attempt hash_request_body
    find_attempts insert_attempt violated fits_columns allowed_transitions assert_transition_allowed
begun = refl

repeat-resolved_example :
    Answers small_world acme 30 "tok_success" "k1" 100
      (resolve_payment small_world
        (draws_from 100)
        acme
        30
        open_invoice
        pending_attempt
        (failed_with psp_timeout)
        (clean pending_db [])).1.committed
repeat-resolved_example =
    repeat-resolved small_world acme 30 "tok_success" "k1" (draws_from 100) start_db pending_attempt
      open_invoice (open_session pending_db) begun (failed_with psp_timeout) []

-- The attempt answers a request of the other tenant too.
process_payment-replay_example :
    process_payment small_world
      (draws_from 200)
      globex
      30
      "tok_success"
      "k1"
      (open_session pending_db)
    ≡ (ok (pending_attempt, true), open_session pending_db)
unfolding find_attempts hash_request_body
process_payment-replay_example =
    process_payment-replay small_world (draws_from 200) globex 30 "tok_success" "k1"
      (open_session pending_db) pending_attempt refl

abbrev void_invoice : Invoice
void_invoice = record open_invoice { state = void }

abbrev void_session : Session
void_session = open_session (record start_db { invoices = void_invoice ∷ [] })

process_payment-in_progress_example :
    process_payment small_world
      (draws_from 200)
      acme
      30
      "tok_success"
      "k2"
      (open_session pending_db)
    ≡ (err already_in_progress, open_session pending_db)
unfolding find_attempts find_invoices fits_columns new_attempt hash_request_body
process_payment-in_progress_example =
    process_payment-in_progress small_world (draws_from 200) acme 30 "tok_success" "k2"
      (open_session pending_db) open_invoice refl refl refl refl refl (λ c. refl) (omega arith) refl

abbrev free_invoice : Invoice
free_invoice = record open_invoice { total_cents = 0 }

abbrev free_session : Session
free_session = open_session (record start_db { invoices = free_invoice ∷ [] })

process_payment-zero_total_example :
    process_payment small_world (draws_from 200) acme 30 "tok_success" "k1" free_session
    ≡ (err idempotency_conflict, free_session)
unfolding find_attempts find_invoices fits_columns new_attempt hash_request_body
process_payment-zero_total_example =
    process_payment-zero_total small_world (draws_from 200) acme 30 "tok_success" "k1" free_session
      free_invoice refl refl refl refl refl (λ c. refl) refl refl refl

lock_and_insert-cases_example :
    let (r, s) =
      lock_and_insert small_world
        (draws_from 100)
        acme
        30
        "tok_success"
        "k1"
        (open_session start_db) in
    Begins small_world acme 30 "tok_success" "k1" start_db r s
    ⊎ (Ends r × (s ≡ open_session start_db))
lock_and_insert-cases_example =
    lock_and_insert-cases small_world (draws_from 100) acme 30 "tok_success" "k1" start_db
