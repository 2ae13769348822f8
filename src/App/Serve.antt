-- ===== src/App/Serve.antt =====
-- What holds of everything that the services commit for a tenant holds of what a request commits.
use mathlib.Core.Path.{subst, sym}
use tenant_billing_service.Base.{
  ℕ, ◌≡◌, refl, inl, inr, String, true, Option, none, some, Bool-cases, str_eq,
}
use tenant_billing_service.Model.Tenant.{Business}
use tenant_billing_service.Model.Db.{Db}
use tenant_billing_service.Model.Invoice.{InvoiceState}
use tenant_billing_service.Session.{Session, open_session, committed_by}
use tenant_billing_service.World.{World, Draws}
use tenant_billing_service.Auth.{
  Credentials, Access, accepted, unauthorized, multiple_rows, get_current_business,
}
use tenant_billing_service.Customers.{create_customer}
use tenant_billing_service.Invoices.{InvoiceCreate, create_invoice, transition_invoice_state}
use tenant_billing_service.Endpoints.{create_endpoint}
use tenant_billing_service.Payment.{process_payment}
use tenant_billing_service.Schemas.{RawInvoice, validate_invoice, validate_customer}
use tenant_billing_service.Routers.Payments.{pay_invoice}
use tenant_billing_service.Routers.Invoices.{
  post_invoice, post_transition, finalize_invoice, void_invoice, mark_uncollectible,
}
use tenant_billing_service.Routers.Customers.{post_customer}
use tenant_billing_service.Routers.Webhooks.{post_endpoint, delete_endpoint}
use tenant_billing_service.App.{
  Route, customers_post, customers_get, customer_get, invoices_post, invoices_get, invoice_get,
  invoice_finalize, invoice_void, invoice_uncollectible, invoice_pay, endpoints_post, endpoints_get,
  endpoint_delete, Request, health, health_db, of_tenant, Reply, if_valid, serve, as_tenant, handle,
}
use tenant_billing_service.App.Refusals.{is_read, serve-same}

-- A predicate of the tables after each service that commits, on a clean session.
pub record HoldsAfter (w : World) (d : Draws) (secret : String) (db : Db) (P : Db → Type 0)
    (business : Business) : Type 0 where
  pub customer : (name email : String) → P (committed_by (create_customer d business name email) db)
  pub invoice :
      (raw : RawInvoice) (payload : InvoiceCreate)
      → validate_invoice raw ≡ some payload
      → P (committed_by (create_invoice d business payload) db)
  pub transition :
      (i : ℕ) (t : InvoiceState) → P (committed_by (transition_invoice_state d business i t) db)
  pub payment :
      (i : ℕ) (token key : String)
      → P (process_payment w d business i token key (open_session db)).1.committed
  pub endpoint : (url : String) → P (committed_by (create_endpoint d business url secret) db)
  pub deletion : (i : ℕ) → P (delete_endpoint business i (open_session db)).1.committed

module _ (app_name : String) (w : World) (d : Draws) (secret : String) (db : Db) (P : Db → Type 0)
    (now : P db) where
  module _ (business : Business) (after : HoldsAfter w d secret db P business) where
    valid-holds :
        {A : Type 0} (payload : Option A) (handler : A → Session → Reply × Session)
        → ((a : A) → payload ≡ some a → P (handler a (open_session db)).1.committed)
        → P (if_valid payload handler (open_session db)).1.committed
    valid-holds none handler h = now
    valid-holds (some a) handler h = h a refl

    transition-holds :
        (i : ℕ) (t : InvoiceState)
        → P (post_transition d business i t (open_session db)).1.committed
    unfolding post_transition
    transition-holds i t = after.transition i t

    pay-holds :
        (i : ℕ) (token : String) (key : Option String)
        → P (pay_invoice w d business i token key (open_session db)).1.committed
    unfolding pay_invoice
    pay-holds i token none = now
    pay-holds i token (some key) = elim (Bool-cases (str_eq key "")) [
      | inl empty ↦ rw empty now
      | inr full ↦ rw full (after.payment i token key)
    ]

    read-holds :
        (route : Route)
        → is_read route ≡ true
        → P (serve app_name w d secret business route (open_session db)).1.committed
    read-holds route h =
        subst (λ (s : Session). P s.committed)
          (sym (serve-same app_name w d secret business route (open_session db) h)) now

    serve-holds :
        (route : Route) → P (serve app_name w d secret business route (open_session db)).1.committed
    unfolding serve post_customer post_invoice finalize_invoice void_invoice mark_uncollectible
        post_endpoint
    serve-holds (customers_post name email) =
        valid-holds (validate_customer w name email) (λ valid s. _)
          (λ valid _. after.customer valid.0 valid.1)
    serve-holds (invoices_post raw) =
        valid-holds (validate_invoice raw) (λ payload s. _)
          (λ payload valid. after.invoice raw payload valid)
    serve-holds (invoice_finalize i) = transition-holds i _
    serve-holds (invoice_void i) = transition-holds i _
    serve-holds (invoice_uncollectible i) = transition-holds i _
    serve-holds (invoice_pay i token key) = pay-holds i token key
    serve-holds (endpoints_post url) = after.endpoint url
    serve-holds (endpoint_delete i) = after.deletion i
    serve-holds (customers_get skip limit) = read-holds (customers_get skip limit) refl
    serve-holds (customer_get i) = read-holds (customer_get i) refl
    serve-holds (invoices_get state skip limit) = read-holds (invoices_get state skip limit) refl
    serve-holds (invoice_get i) = read-holds (invoice_get i) refl
    serve-holds endpoints_get = read-holds endpoints_get refl

  tenant-holds :
      (access : Access) (route : Route)
      → ((business : Business) → access ≡ accepted business → HoldsAfter w d secret db P business)
      → P (as_tenant app_name w d secret access route (open_session db)).1.committed
  tenant-holds (accepted business) route after = serve-holds business (after business refl) route
  tenant-holds unauthorized route after = now
  tenant-holds multiple_rows route after = now

  pub handle-holds :
      (credentials : Option Credentials) (request : Request)
      → ((business : Business)
          → get_current_business w credentials db ≡ accepted business
          → HoldsAfter w d secret db P business)
      → P (handle app_name w d secret credentials request (open_session db)).1.committed
  unfolding handle
  handle-holds credentials health after = now
  handle-holds credentials health_db after = now
  handle-holds credentials (of_tenant route) after =
      tenant-holds (get_current_business w credentials db) route after
