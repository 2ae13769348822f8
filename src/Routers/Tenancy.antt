-- ===== src/Routers/Tenancy.antt =====
-- What a tenant sees of the rows of others, and what a refused request leaves.
use tenant_billing_service.Base.{
  ℕ, ◌≡◌, refl, ◌⊎◌, inl, inr, String, true, false, some, [], ◌∷◌, arith, any, str_eq,
  ◌++◌ as ◌+rows+◌,
}
use tenant_billing_service.Model.Invoice.{InvoiceState}
use tenant_billing_service.Model.Tenant.{Business}
use tenant_billing_service.Model.Db.{Db}
use tenant_billing_service.Session.{Session, open_session}
use tenant_billing_service.World.{World, Draws}
use tenant_billing_service.Payment.Attempts.{find_attempts}
use tenant_billing_service.Payment.Start.{find_invoices}
use tenant_billing_service.Payment.Replay.{process_payment-no_invoice}
use tenant_billing_service.Invoices.{
  find_customers, get_invoice, InvoiceCreate, create_invoice, transition_invoice_state,
  check_transition,
}
use tenant_billing_service.Customers.{
  get_customer, new_customer, has_customer_id, has_email, email_taken,
}
use tenant_billing_service.Customers.Laws.{create_customer-committed}
use tenant_billing_service.Endpoints.{find_endpoints, deactivate_endpoint}
use tenant_billing_service.Routers.Payments.{respond, http_exception, answer_payment, pay_invoice}
use tenant_billing_service.Routers.Invoices.{
  read_invoice, post_transition, post_invoice, answer_lookup, answer_transition, answer_creation,
}
use tenant_billing_service.Routers.Customers.{
  post_customer, answer_customer, read_customer, answer_found_customer,
}
use tenant_billing_service.Routers.Webhooks.{delete_endpoint}

module _ (w : World) (d : Draws) (business : Business) (s : Session) where
  -- If the business has no invoice of an identifier, which another tenant may have, then reading
  -- it, changing its state, and paying it with a new and non-empty key are all answered with 404,
  -- and change nothing.
  pub foreign_invoice-hidden :
      (i : ℕ) (t : InvoiceState) (token key : String)
      → find_invoices business.id i s.working ≡ []
      → find_attempts i key s.working ≡ []
      → str_eq key "" ≡ false
      → (read_invoice business i s ≡ (http_exception 404 "Invoice not found", s))
        × (post_transition d business i t s ≡ (http_exception 404 "Invoice not found", s))
        × (pay_invoice w d business i token (some key) s
            ≡ (http_exception 404 "Invoice not found", s))
  unfolding read_invoice get_invoice answer_lookup post_transition answer_transition
      transition_invoice_state check_transition pay_invoice answer_payment
  foreign_invoice-hidden i t token key missing new full = (
    ground arith,
    ground arith,
    rw (full, process_payment-no_invoice w d business i token key s new missing) refl,
  )

  -- If the business has no customer and no endpoint of some identifiers, then reading the
  -- customer, creating an invoice for it, and deleting the endpoint are all answered with 404, and
  -- change nothing.
  foreign_rows-hidden :
      (c e : ℕ) (payload : InvoiceCreate)
      → find_customers business.id c s.working ≡ []
      → find_endpoints business.id e s.working ≡ []
      → payload.customer_id ≡ c
      → (read_customer business c s
          ≡ (http_exception 404 "Customer not found for this business", s))
        × (post_invoice d business payload s ≡ (http_exception 404 "Customer not found", s))
        × (delete_endpoint business e s ≡ (http_exception 404 "Webhook endpoint not found", s))
  unfolding read_customer get_customer answer_found_customer post_invoice create_invoice
      answer_creation delete_endpoint deactivate_endpoint
  foreign_rows-hidden c e payload no_customer no_endpoint same =
      (ground arith, ground arith, ground arith)

module _ (d : Draws) (business : Business) (name email : String) (db : Db) where
  -- If the drawn identifier is free, then POST /customers is answered with 409 and changes nothing
  -- where the business has a customer with the email, and else with 201 and commits that customer
  -- alone.
  pub post_customer-cases :
      any (has_customer_id (d.uuid 0)) db.customers ≡ false
      → let (answer, s) = post_customer d business name email (open_session db) in
        ((any (has_email business.id email) db.customers ≡ true)
          × (answer ≡ http_exception 409 (email_taken email))
          × (s.committed ≡ db))
        ⊎ ((any (has_email business.id email) db.customers ≡ false)
            × (answer ≡ respond 201 (new_customer d business name email))
            × (s.committed ≡ record db {
              customers = db.customers +rows+ (new_customer d business name email ∷ []);
            }))
  unfolding post_customer answer_customer
  post_customer-cases new_id = elim (create_customer-committed d business name email db new_id) [
    | inl (taken, r, same) ↦ inl (taken, ground arith, ground arith)
    | inr (free, r, added) ↦ inr (free, ground arith, ground arith)
  ]
