-- ===== src/Tests/Tenants.antt =====
-- Tenants, their keys, customers, endpoints and listings, on the small world.
use tenant_billing_service.Base.{
  ℕ, ◌+◌, ◌≤◌, ◌≡◌, refl, ◌⊎◌, true, false, none, some, List, [], ◌∷◌, ◌++◌, map, ◌==◌, any, length,
  select, page, All, InOrder,
}
use tenant_billing_service.Errors.{ok}
use tenant_billing_service.Model.Invoice.{Invoice, void, draft}
use tenant_billing_service.Model.Webhook.{WebhookDelivery}
use tenant_billing_service.Model.Tenant.{ApiKey}
use tenant_billing_service.Model.Db.{Db}
use tenant_billing_service.Session.{Session, open_session}
use tenant_billing_service.Payment.Attempts.{find_attempts}
use tenant_billing_service.Payment.Start.{find_invoices}
use tenant_billing_service.Invoices.{InvoiceCreate}
use tenant_billing_service.Invoices.Listing.{
  is_listed, in_state, is_newer, listed, loaded, list_invoices, list_invoices_lem,
}
use tenant_billing_service.Outbox.{active_endpoints, enqueue_event}
use tenant_billing_service.Outbox.Laws.{recipients, IsNew, enqueue_event-fans_out}
use tenant_billing_service.Endpoints.{find_endpoints, deactivate_endpoint}
use tenant_billing_service.Endpoints.Laws.{deactivate_endpoint-silences}
use tenant_billing_service.Customers.{new_customer, email_taken, has_email}
use tenant_billing_service.Auth.{
  Credentials, accepted, get_current_business, generate_api_key, verify_api_key, hash_api_key,
}
use tenant_billing_service.Auth.Texts.{strip, lstrip, rstrip, is_bearer}
use tenant_billing_service.Auth.Laws.{LetIn, get_current_business-LetIn, generate_api_key-accepted}
use tenant_billing_service.Routers.Payments.{http_exception, respond, pay_invoice}
use tenant_billing_service.Routers.Invoices.{read_invoice, post_transition}
use tenant_billing_service.Routers.Customers.{post_customer}
use tenant_billing_service.Routers.Tenancy.{foreign_invoice-hidden, post_customer-cases}
use tenant_billing_service.Tests.World.{
  small_world, draws_from, acme, globex, endpoint, open_invoice, start_db, start,
}

abbrev second_invoice : Invoice
second_invoice = record open_invoice { id = 31; state = draft; created_at = 5 }

abbrev two_invoices : Session
two_invoices = open_session (record start_db { invoices = open_invoice ∷ second_invoice ∷ [] })

list_invoices_lem_example :
    let rows = page 0 1 (listed acme (some "open") two_invoices.working) in
    (list_invoices acme (some "open") 0 1 two_invoices ≡ (
      ok (
        map (loaded two_invoices.working) rows,
        length (select (is_listed acme (some "open")) two_invoices.working.invoices),
      ),
      two_invoices,
    ))
    × (length rows ≤ 1)
    × All (λ i. (i.business_id ≡ 1) × (in_state (some "open") i ≡ true)) rows
    × InOrder is_newer rows
list_invoices_lem_example = list_invoices_lem acme two_invoices (some "open") 0 1

enqueue_event-fans_out_example :
    let (r, s') = enqueue_event (λ n. 100 + n) 50 1 "invoice.paid" [] start in
    (r ≡ ok tt)
    × (s'.committed ≡ start_db)
    × ((rows : List WebhookDelivery) × (s'.working
          ≡ record start_db { webhook_deliveries = start_db.webhook_deliveries ++ rows })
        × (recipients rows ≡ 20 ∷ [])
        × All (IsNew 50 "invoice.paid" []) rows)
    × All (λ e. (e.business_id ≡ 1) × (e.is_active ≡ true)) (endpoint ∷ [])
unfolding active_endpoints
enqueue_event-fans_out_example = enqueue_event-fans_out (λ n. 100 + n) 50 "invoice.paid" [] 1 start

deactivate_endpoint-silences_example :
    let (r, s) = deactivate_endpoint acme 20 (open_session start_db) in
    (r ≡ ok (some (record endpoint { is_active = false })))
    × ((b : ℕ) → All (λ e. (e.id == 20) ≡ false) (active_endpoints b s.working))
    × (s.working.webhook_deliveries ≡ [])
unfolding find_endpoints
deactivate_endpoint-silences_example = deactivate_endpoint-silences acme 20 start_db endpoint refl

abbrev key_row : ApiKey
key_row = record {
  id = 40;
  business_id = 1;
  key_hash = "sk_live_abc";
  key_prefix = "sk_live_abc";
  is_active = true;
  created_at = 0;
  revoked_at = none;
}

abbrev keyed_db : Db
keyed_db = record start_db { api_keys = key_row ∷ [] }

abbrev bearer : Credentials
bearer = record { scheme = "BEARER"; credentials = " sk_live_abc " }

get_current_business-LetIn_example : LetIn small_world bearer keyed_db acme
unfolding get_current_business hash_api_key strip lstrip rstrip is_bearer
get_current_business-LetIn_example =
    get_current_business-LetIn small_world bearer keyed_db acme refl

generate_api_key-accepted_example :
    (get_current_business small_world
        (some (record { scheme = "Bearer"; credentials = "sk_live_abc" }))
        keyed_db
      ≡ accepted acme)
    × (verify_api_key small_world "sk_live_abc" "sk_live_abc" ≡ true)
unfolding generate_api_key
generate_api_key-accepted_example =
    generate_api_key-accepted small_world "abc" keyed_db key_row acme refl refl refl

foreign_invoice-hidden_example :
    (read_invoice globex 30 start ≡ (http_exception 404 "Invoice not found", start))
    × (post_transition (draws_from 100) globex 30 void start
        ≡ (http_exception 404 "Invoice not found", start))
    × (pay_invoice small_world (draws_from 100) globex 30 "tok_success" (some "k9") start
        ≡ (http_exception 404 "Invoice not found", start))
unfolding find_invoices find_attempts
foreign_invoice-hidden_example =
    foreign_invoice-hidden small_world (draws_from 100) globex start 30 void "tok_success" "k9" refl
      refl refl

abbrev order : InvoiceCreate
order = record { customer_id = 10; due_date = none; line_items = [] }

post_customer-cases_example :
    let (answer, s) =
      post_customer (draws_from 100) acme "Alice" "alice@example.com" (open_session start_db) in
    ((any (has_email 1 "alice@example.com") start_db.customers ≡ true)
      × (answer ≡ http_exception 409 (email_taken "alice@example.com"))
      × (s.committed ≡ start_db))
    ⊎ ((any (has_email 1 "alice@example.com") start_db.customers ≡ false)
        × (answer ≡ respond 201 (new_customer (draws_from 100) acme "Alice" "alice@example.com"))
        × (s.committed ≡ record start_db {
          customers =
              start_db.customers
              ++ new_customer (draws_from 100) acme "Alice" "alice@example.com" ∷ [];
        }))
post_customer-cases_example =
    post_customer-cases (draws_from 100) acme "Alice" "alice@example.com" start_db refl
