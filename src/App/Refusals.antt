-- ===== src/App/Refusals.antt =====
-- Which requests reach a handler, and what a request leaves that is refused or only reads.
use tenant_billing_service.Base.{
  All, Bool-cases, ℕ, ◌≡◌, refl, inl, inr, String, Bool, true, false, Option, none, some, arith,
}
use tenant_billing_service.Model.Tenant.{Business}
use tenant_billing_service.Session.{Session}
use tenant_billing_service.World.{World, Draws}
use tenant_billing_service.Auth.{hash_api_key, Credentials, unauthorized, get_current_business}
use tenant_billing_service.Auth.Texts.{is_bearer, strip}
use tenant_billing_service.Auth.Laws.{get_current_business-revoked}
use tenant_billing_service.Model.Db.{Db}
use tenant_billing_service.Customers.{get_customer, list_customers}
use tenant_billing_service.Endpoints.{list_endpoints}
use tenant_billing_service.Invoices.{get_invoice}
use tenant_billing_service.Invoices.Listing.{list_invoices}
use tenant_billing_service.Schemas.{validate_page}
use tenant_billing_service.Routers.Payments.{http_exception}
use tenant_billing_service.Routers.Invoices.{read_invoices, read_invoice}
use tenant_billing_service.Routers.Customers.{read_customers, read_customer}
use tenant_billing_service.Routers.Webhooks.{read_endpoints}
use tenant_billing_service.App.{
  Route, customers_get, customer_get, invoices_get, invoice_get, endpoints_get, of_tenant, Reply,
  answered, if_valid, serve, handle,
}

-- The GET routes.
abbrev pub is_read : Route → Bool
is_read (customers_get skip limit) = true
is_read (customer_get customer_id) = true
is_read (invoices_get state skip limit) = true
is_read (invoice_get invoice_id) = true
is_read endpoints_get = true
is_read _ = false

-- Every key with the hash of the Bearer token that is brought, if one is, has been revoked.
abbrev pub BringsNoKey : World → Option Credentials → Db → Type 0
BringsNoKey w none db = Unit
BringsNoKey w (some c) db =
    is_bearer c.scheme ≡ true
    → All (λ k. k.key_hash ≡ hash_api_key w (strip c.credentials) → k.is_active ≡ false) db.api_keys

no_key-unauthorized :
    (w : World) (credentials : Option Credentials) (db : Db)
    → BringsNoKey w credentials db
    → get_current_business w credentials db ≡ unauthorized
unfolding get_current_business
no_key-unauthorized w none db h = refl
no_key-unauthorized w (some c) db h = elim (Bool-cases (is_bearer c.scheme)) [
  | inl bearer ↦ get_current_business-revoked w c db (h bearer)
  | inr other ↦ rw other refl
]

module _ (app_name : String) (w : World) (d : Draws) (secret : String) where
  -- If a request brings no credentials, or those of another scheme than Bearer, or a token that no
  -- active key has the hash of, then every route but the health checks is answered with 401,
  -- whatever the body of the request, and changes and sends nothing.
  pub handle-refused :
      (credentials : Option Credentials) (route : Route) (s : Session)
      → BringsNoKey w credentials s.working
      → handle app_name w d secret credentials (of_tenant route) s
        ≡ (answered (http_exception 401 "Invalid API key"), s)
  unfolding handle
  handle-refused credentials route s h = rw (no_key-unauthorized w credentials s.working h) refl

  page-unchanged :
      (page : Option (ℕ × ℕ)) (handler : ℕ × ℕ → Session → Reply × Session) (s : Session)
      → ((p : ℕ × ℕ) → (handler p s).1 ≡ s)
      → (if_valid page handler s).1 ≡ s
  page-unchanged none handler s h = refl
  page-unchanged (some p) handler s h = h p

  read_customers-same :
      (business : Business) (skip limit : ℕ) (s : Session)
      → (read_customers business skip limit s).1 ≡ s
  unfolding read_customers list_customers
  read_customers-same business skip limit s = refl

  read_invoices-same :
      (business : Business) (state : Option String) (skip limit : ℕ) (s : Session)
      → (read_invoices business state skip limit s).1 ≡ s
  unfolding read_invoices list_invoices
  read_invoices-same business state skip limit s = ground arith

  read_customer-same :
      (business : Business) (i : ℕ) (s : Session) → (read_customer business i s).1 ≡ s
  unfolding read_customer get_customer
  read_customer-same business i s = ground arith

  read_invoice-same :
      (business : Business) (i : ℕ) (s : Session) → (read_invoice business i s).1 ≡ s
  unfolding read_invoice get_invoice
  read_invoice-same business i s = ground arith

  read_endpoints-same : (business : Business) (s : Session) → (read_endpoints business s).1 ≡ s
  unfolding read_endpoints list_endpoints
  read_endpoints-same business s = refl

  -- A GET changes nothing.
  pub serve-same :
      (business : Business) (route : Route) (s : Session)
      → is_read route ≡ true
      → (serve app_name w d secret business route s).1 ≡ s
  unfolding serve
  serve-same business (customers_get skip limit) s h =
      page-unchanged (validate_page skip limit) (λ p. _) s
        (λ p. read_customers-same business p.0 p.1 s)
  serve-same business (customer_get i) s h = read_customer-same business i s
  serve-same business (invoices_get state skip limit) s h =
      page-unchanged (validate_page skip limit) (λ p. _) s
        (λ p. read_invoices-same business state p.0 p.1 s)
  serve-same business (invoice_get i) s h = read_invoice-same business i s
  serve-same business endpoints_get s h = read_endpoints-same business s
  serve-same business _ s h = cc
