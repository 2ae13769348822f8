-- ===== src/App.antt =====
-- app/main.py and the routers that it includes: a request from its route to its answer, through the
-- dependency on the tenant (app/dependencies.py), the schemas and the handler.
pub mod Refusals
pub mod Owners
pub mod Commits
pub mod Isolation
pub mod Keys
pub mod Payments
pub mod Serve
pub mod Safety
use tenant_billing_service.Base.{ℕ, String, Bool, Option, none, some, List, map}
use tenant_billing_service.Errors.{AppError, database, multiple_results_found}
use tenant_billing_service.Model.Payment.{PaymentAttempt}
use tenant_billing_service.Model.Tenant.{Business, Customer}
use tenant_billing_service.Session.{Session}
use tenant_billing_service.World.{World, Draws}
use tenant_billing_service.Signing.Decimal.{ℤ}
use tenant_billing_service.Auth.{
  Credentials, Access, accepted, unauthorized, multiple_rows, get_current_business,
}
use tenant_billing_service.Invoices.{LoadedInvoice}
use tenant_billing_service.Schemas.{RawInvoice, validate_invoice, validate_customer, validate_page}
use tenant_billing_service.Schemas.Reads.{
  CustomerRead, InvoiceRead, PaymentAttemptRead, customer_read, invoice_read, attempt_read,
}
use tenant_billing_service.Routers.Payments.{Answer, respond, http_exception, uncaught, pay_invoice}
use tenant_billing_service.Routers.Invoices.{
  post_invoice, read_invoices, read_invoice, finalize_invoice, void_invoice, mark_uncollectible,
}
use tenant_billing_service.Routers.Customers.{post_customer, read_customers, read_customer}
use tenant_billing_service.Routers.Webhooks.{
  WebhookEndpointRead, WebhookEndpointCreated, post_endpoint, read_endpoints, delete_endpoint,
}

-- The routes that take a tenant, with what the framework reads from the path, the query, the headers and a JSON body of
-- the right shape.
pub data Route : Type 0 where
  -- POST /customers, GET /customers, GET /customers/{customer_id}
  customers_post : String → String → Route
  customers_get : Option ℤ → Option ℤ → Route
  customer_get : ℕ → Route
  -- POST /invoices, GET /invoices, GET /invoices/{invoice_id}
  invoices_post : RawInvoice → Route
  invoices_get : Option String → Option ℤ → Option ℤ → Route
  invoice_get : ℕ → Route
  -- POST /invoices/{invoice_id}/finalize, /void, /uncollectible
  invoice_finalize invoice_void invoice_uncollectible : ℕ → Route
  -- POST /invoices/{invoice_id}/pay, with the token and the Idempotency-Key
  invoice_pay : ℕ → String → Option String → Route
  -- POST /webhook_endpoints, GET /webhook_endpoints, DELETE /webhook_endpoints/{endpoint_id}
  endpoints_post : String → Route
  endpoints_get : Route
  endpoint_delete : ℕ → Route

-- Those, and GET /health and GET /health/db.
pub data Request : Type 0 where
  health health_db : Request
  of_tenant : Route → Request

-- `PaginatedResponse`
pub record PaginatedResponse (A : Type 0) : Type 0 where
  pub items : List A
  pub total : ℕ
  pub skip : ℕ
  pub limit : ℕ

pub data Body : Type 0 where
  app_status : String → Body
  database_status : String → Body
  customer : CustomerRead → Body
  customers : PaginatedResponse CustomerRead → Body
  invoice : InvoiceRead → Body
  invoices : PaginatedResponse InvoiceRead → Body
  attempt : PaymentAttemptRead → Body
  endpoint : WebhookEndpointCreated → Body
  endpoints : List WebhookEndpointRead → Body
  no_content : Body

-- What the client gets: the answer of a handler, or the 422 of the framework's validation.
pub data Reply : Type 0 where
  answered : Answer Body → Reply
  unprocessable : Reply

abbrev pub with_body : {A : Type 0} → (A → Body) → Answer A → Answer Body
with_body f (respond status_code a) = respond status_code (f a)
with_body f (http_exception status_code detail) = http_exception status_code detail
with_body f (uncaught e) = uncaught e

abbrev pub reply : {A : Type 0} → (A → Body) → Answer A × Session → Reply × Session
reply f (answer, s) = (answered (with_body f answer), s)

-- A handler for what validation gives, if it gives something.
abbrev pub if_valid :
    {A : Type 0} → Option A → (A → Session → Reply × Session) → Session → Reply × Session
if_valid none handler s = (unprocessable, s)
if_valid (some a) handler s = handler a s

abbrev pub page_of : {A B : Type 0} → (A → B) → ℕ → ℕ → List A × ℕ → PaginatedResponse B
page_of read skip limit (items, total) = record {
  items = map read items;
  total = total;
  skip = skip;
  limit = limit;
}

-- What one request draws beside its Draws: the random part of a signing secret.
module _ (app_name : String) (w : World) (d : Draws) (secret : String) where
  -- The handlers that take the tenant.
  unfoldable pub serve : Business → Route → Session → Reply × Session
  serve business (customers_post name email) s =
      if_valid (validate_customer w name email)
        (λ valid s.
          reply (λ c. customer (customer_read c)) (post_customer d business valid.0 valid.1 s))
        s
  serve business (customers_get skip limit) s =
      if_valid (validate_page skip limit)
        (λ page s.
          reply (λ found. customers (page_of customer_read page.0 page.1 found))
            (read_customers business page.0 page.1 s))
        s
  serve business (customer_get customer_id) s =
      reply (λ c. customer (customer_read c)) (read_customer business customer_id s)
  serve business (invoices_post raw) s =
      if_valid (validate_invoice raw)
        (λ payload s.
          reply (λ found. invoice (invoice_read found)) (post_invoice d business payload s))
        s
  serve business (invoices_get state skip limit) s =
      if_valid (validate_page skip limit)
        (λ page s.
          reply (λ found. invoices (page_of invoice_read page.0 page.1 found))
            (read_invoices business state page.0 page.1 s))
        s
  serve business (invoice_get invoice_id) s =
      reply (λ found. invoice (invoice_read found)) (read_invoice business invoice_id s)
  serve business (invoice_finalize invoice_id) s =
      reply (λ found. invoice (invoice_read found)) (finalize_invoice d business invoice_id s)
  serve business (invoice_void invoice_id) s =
      reply (λ found. invoice (invoice_read found)) (void_invoice d business invoice_id s)
  serve business (invoice_uncollectible invoice_id) s =
      reply (λ found. invoice (invoice_read found)) (mark_uncollectible d business invoice_id s)
  serve business (invoice_pay invoice_id card_token key) s =
      reply (λ a. attempt (attempt_read a)) (pay_invoice w d business invoice_id card_token key s)
  serve business (endpoints_post url) s = reply endpoint (post_endpoint d business url secret s)
  serve business endpoints_get s = reply endpoints (read_endpoints business s)
  serve business (endpoint_delete endpoint_id) s =
      reply (λ _. no_content) (delete_endpoint business endpoint_id s)

  -- `CurrentBusiness`: the dependency is solved before the body is validated.
  abbrev pub as_tenant : Access → Route → Session → Reply × Session
  as_tenant (accepted business) route s = serve business route s
  as_tenant unauthorized route s = (answered (http_exception 401 "Invalid API key"), s)
  as_tenant multiple_rows route s = (answered (uncaught (database multiple_results_found)), s)

  -- The application; the two health checks take no tenant.
  unfoldable pub handle : Option Credentials → Request → Session → Reply × Session
  handle credentials health s = (answered (respond 200 (app_status app_name)), s)
  handle credentials health_db s = (answered (respond 200 (database_status "reachable")), s)
  handle credentials (of_tenant route) s =
      as_tenant (get_current_business w credentials s.working) route s
