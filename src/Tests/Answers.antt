-- ===== src/Tests/Answers.antt =====
-- Whole payments and new invoices on the small world.
use tenant_billing_service.Base.{
  ◌≡◌, refl, true, false, some, none, List, [], ◌∷◌, arith, inl, inr, All, String,
}
use tenant_billing_service.Errors.{ok}
use tenant_billing_service.Model.Payment.{pending, succeeded, failed}
use tenant_billing_service.Model.Invoice.{Invoice, InvoiceLineItem, paid, draft}
use tenant_billing_service.Model.Webhook.{WebhookDelivery, uuid, int, text}
use tenant_billing_service.Session.{open_session, clean, committed_by}
use tenant_billing_service.Outbox.{active_endpoints}
use tenant_billing_service.Outbox.Laws.{IsNew, recipients, ids_of}
use tenant_billing_service.Psp.{charged}
use tenant_billing_service.Payment.{process_payment}
use tenant_billing_service.Payment.Attempts.{find_attempts, fits_columns}
use tenant_billing_service.Payment.Start.{find_invoices, new_attempt, hash_request_body}
use tenant_billing_service.Payment.Resolve.{resolve_payment, invoices_by_id}
use tenant_billing_service.Payment.Whole.{Goes, charge_of}
use tenant_billing_service.Payment.Answers.{
  row_of, process_payment-Unclear, process_payment-declined, process_payment-succeeded,
}
use tenant_billing_service.Payment.Promises.{FansOut, json_text}
use tenant_billing_service.Payment.Settlement.{resolve_payment-Settles}
use tenant_billing_service.Payment.Settled.{Settles}
use tenant_billing_service.Invoices.{InvoiceCreate, LoadedInvoice, create_invoice, find_customers}
use tenant_billing_service.Invoices.Creation.{EachLine, create_invoice-drafts}
use tenant_billing_service.Tests.World.{
  mock_psp, small_world, draws_from, acme, open_invoice, start_db, pending_attempt, pending_db,
  alice,
}
use tenant_billing_service.Tests.Resolutions.{decline}

goes :
    (token : String)
    → fits_columns
        (new_attempt 100 100 30 open_invoice token "k1" (hash_request_body small_world token))
      ≡ true
    → Goes small_world (draws_from 100) acme 30 token "k1" start_db open_invoice
unfolding find_attempts find_invoices fits_columns new_attempt hash_request_body
goes token fit = record {
  new_key = refl;
  found = refl;
  was_open = refl;
  positive = omega arith;
  idle = refl;
  new_id = refl;
  fits = fit;
}

fits_timeout :
    fits_columns (
      new_attempt 100 100 30 open_invoice "tok_timeout" "k1"
        (hash_request_body small_world "tok_timeout"))
    ≡ true
unfolding fits_columns new_attempt hash_request_body
fits_timeout = refl

fits_declined :
    fits_columns (
      new_attempt 100 100 30 open_invoice "tok_card_declined" "k1"
        (hash_request_body small_world "tok_card_declined"))
    ≡ true
unfolding fits_columns new_attempt hash_request_body
fits_declined = refl

fits_success :
    fits_columns (
      new_attempt 100 100 30 open_invoice "tok_success" "k1"
        (hash_request_body small_world "tok_success"))
    ≡ true
unfolding fits_columns new_attempt hash_request_body
fits_success = refl

process_payment-Unclear_example :
    let x =
      row_of small_world
        (draws_from 100)
        30
        "tok_timeout"
        "k1"
        open_invoice
        pending
        none
        (some "psp_timeout") in
    process_payment small_world (draws_from 100) acme 30 "tok_timeout" "k1" (open_session start_db)
    ≡ (
      ok (x, false),
      clean
          (record start_db { payment_attempts = x ∷ [] })
          (charge_of "tok_timeout" "k1" open_invoice ∷ []),
    )
unfolding mock_psp
process_payment-Unclear_example =
    process_payment-Unclear small_world (draws_from 100) acme 30 "tok_timeout" "k1" start_db
      open_invoice (goes "tok_timeout" fits_timeout) "psp_timeout" refl

process_payment-declined_example :
    let x =
      row_of small_world
        (draws_from 100)
        30
        "tok_card_declined"
        "k1"
        open_invoice
        failed
        none
        (some "card_declined") in
    (rows : List WebhookDelivery) × (process_payment small_world
        (draws_from 100)
        acme
        30
        "tok_card_declined"
        "k1"
        (open_session start_db)
      ≡ (
        ok (x, false),
        clean
            (record start_db { payment_attempts = x ∷ []; webhook_deliveries = rows })
            (charge_of "tok_card_declined" "k1" open_invoice ∷ []),
      ))
    × FansOut 1 101 "invoice.payment_failed"
        (("invoice_id", uuid 30)
          ∷ ("failure_code", json_text (some "card_declined"))
          ∷ ("amount_cents", int 155000)
          ∷ [])
        start_db
        rows
unfolding mock_psp
process_payment-declined_example =
    process_payment-declined small_world (draws_from 100) acme 30 "tok_card_declined" "k1" start_db
      open_invoice (goes "tok_card_declined" fits_declined) 200
      (record {
        status = some (some "failed");
        psp_ref = none;
        code = some "card_declined";
        failure_code = none;
      })
      (some "failed") (some "card_declined") refl refl refl
      (inl ("card_declined", refl, refl, refl)) (λ e. cc) refl

process_payment-succeeded_example :
    let x =
      row_of small_world
        (draws_from 100)
        30
        "tok_success"
        "k1"
        open_invoice
        succeeded
        (some "ref")
        none in
    (rows : List WebhookDelivery) × (process_payment small_world
        (draws_from 100)
        acme
        30
        "tok_success"
        "k1"
        (open_session start_db)
      ≡ (
        ok (x, false),
        clean
            (record start_db {
              payment_attempts = x ∷ [];
              invoices = record open_invoice { state = paid; updated_at = 101 } ∷ [];
              webhook_deliveries = rows;
            })
            (charge_of "tok_success" "k1" open_invoice ∷ []),
      ))
    × FansOut 1 101 "invoice.paid"
        (("invoice_id", uuid 30)
          ∷ ("amount_cents", int 155000)
          ∷ ("psp_ref", json_text (some "ref"))
          ∷ [])
        start_db
        rows
unfolding mock_psp invoices_by_id
process_payment-succeeded_example =
    process_payment-succeeded small_world (draws_from 100) acme 30 "tok_success" "k1" start_db
      open_invoice (goes "tok_success" fits_success) 200
      (record {
        status = some (some "succeeded");
        psp_ref = some "ref";
        code = none;
        failure_code = none;
      })
      (some "succeeded") none refl refl refl (inr (inl refl, refl)) refl refl refl refl

resolve_payment-Settles_example :
    let (r, s) =
      resolve_payment small_world
        (draws_from 100)
        acme
        30
        open_invoice
        pending_attempt
        (charged decline)
        (clean pending_db []) in
    Settles small_world
      (draws_from 100)
      acme
      30
      open_invoice
      100
      (charged decline)
      pending_db
      r
      s.committed
resolve_payment-Settles_example =
    resolve_payment-Settles small_world (draws_from 100) acme 30 open_invoice pending_attempt
      pending_db [] (charged decline)

abbrev order : InvoiceCreate
order = record {
  customer_id = 10;
  due_date = none;
  line_items =
      record { description = "seats"; quantity = 3; unit_amount_cents = 500 }
      ∷ record { description = "setup"; quantity = 1; unit_amount_cents = 2500 }
      ∷ [];
}

create_invoice-drafts_example :
    let x : Invoice = record {
      id = 100;
      business_id = 1;
      customer_id = 10;
      state = draft;
      total_cents = 4000;
      due_date = none;
      created_at = 100;
      updated_at = 100;
    } in
    (loaded : LoadedInvoice) × (items : List InvoiceLineItem) × (rows : List WebhookDelivery)
    × ((create_invoice (draws_from 100) acme order (open_session start_db)).0 ≡ ok loaded)
    × (loaded.invoice ≡ x)
    × (committed_by (create_invoice (draws_from 100) acme order) start_db ≡ record start_db {
      invoices = open_invoice ∷ x ∷ [];
      invoice_line_items = items;
      webhook_deliveries = rows;
    })
    × EachLine 100 order.line_items items
    × (recipients rows ≡ ids_of (active_endpoints 1 start_db))
    × All
        (IsNew 100 "invoice.created" (
          ("id", uuid 100)
          ∷ ("customer_id", uuid 10)
          ∷ ("state", text "draft")
          ∷ ("total_cents", int 4000)
          ∷ []))
        rows
unfolding find_customers
create_invoice-drafts_example =
    create_invoice-drafts (draws_from 100) acme order start_db alice refl refl
      ((omega arith, omega arith, omega arith), ((omega arith, omega arith, omega arith), tt))
      (omega arith)
