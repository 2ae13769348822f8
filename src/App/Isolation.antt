-- ===== src/App/Isolation.antt =====
-- What the handlers leave of the rows of other tenants.
use tenant_billing_service.Base.{
  ℕ, ◌≡◌, refl, inl, inr, String, true, false, List, [], ◌∷◌, arith, ◌==◌, select, update_where,
  All,
}
use tenant_billing_service.Model.Invoice.{Invoice, InvoiceState}
use tenant_billing_service.Model.Webhook.{WebhookEndpoint}
use tenant_billing_service.Model.Tenant.{Business}
use tenant_billing_service.Model.Db.{Db}
use tenant_billing_service.Session.{open_session, committed_by}
use tenant_billing_service.World.{Draws}
use tenant_billing_service.Payment.Start.{find_invoices}
use tenant_billing_service.Payment.Resolve.{has_invoice_id}
use tenant_billing_service.Customers.{new_customer, create_customer, of_business}
use tenant_billing_service.Invoices.{
  InvoiceCreate, create_invoice, draft_invoice, transition_invoice_state,
}
use tenant_billing_service.Invoices.Outcomes.{with_state, create_invoice-cases, transition-cases}
use tenant_billing_service.Endpoints.{
  has_endpoint_id, new_endpoint, create_endpoint, find_endpoints, switched_off,
}
use tenant_billing_service.Routers.Webhooks.{delete_endpoint}
use tenant_billing_service.App.Commits.{
  found-id, endpoint-id, deactivate_endpoint-rows, transition-frame, create_invoice-frame,
  create_customer-committed_rows, create_endpoint-committed_rows,
}
use tenant_billing_service.App.Owners.{
  invoice_of_business, endpoint_of_business, Untouched, Untouched-refl, IsKeyed, select-added,
  select-kept, found-owned,
}

module _ (o : ℕ) (business : Business) (other : (business.id == o) ≡ false) (db : Db)
    (keyed : IsKeyed db) where
  owned-others :
      (i : ℕ) (rows : List Invoice)
      → All (λ x. has_invoice_id i x ≡ true → invoice_of_business business.id x ≡ true) rows
      → All (λ x. has_invoice_id i x ≡ true → invoice_of_business o x ≡ false) rows
  owned-others i [] h = tt
  owned-others i (x ∷ rows) (first, h) =
      ((λ named. ground (arith, first named)), owned-others i rows h)

  -- An UPDATE of an invoice that was found for the business.
  pub invoices-kept :
      (i : ℕ) (x : Invoice) (f : Invoice → Invoice)
      → find_invoices business.id i db ≡ x ∷ []
      → ((y : Invoice) → invoice_of_business o (f y) ≡ invoice_of_business o y)
      → select (invoice_of_business o) (update_where (has_invoice_id i) f db.invoices)
        ≡ select (invoice_of_business o) db.invoices
  unfolding find_invoices
  invoices-kept i x f found keeps =
      select-kept (invoice_of_business o) (has_invoice_id i) f db.invoices keeps (
        owned-others i db.invoices (
          found-owned (has_invoice_id i) (invoice_of_business business.id) db.invoices x
            (keyed.of_invoices i) found))

  owned-other_endpoints :
      (i : ℕ) (rows : List WebhookEndpoint)
      → All (λ x. has_endpoint_id i x ≡ true → endpoint_of_business business.id x ≡ true) rows
      → All (λ x. has_endpoint_id i x ≡ true → endpoint_of_business o x ≡ false) rows
  owned-other_endpoints i [] h = tt
  owned-other_endpoints i (x ∷ rows) (first, h) =
      ((λ named. ground (arith, first named)), owned-other_endpoints i rows h)

  module _ (d : Draws) where
    transition-invoices :
        (i : ℕ) (t : InvoiceState)
        → select
            (invoice_of_business o)
            (committed_by (transition_invoice_state d business i t) db).invoices
          ≡ select (invoice_of_business o) db.invoices
    transition-invoices i t = elim (transition-cases d business i t db).1 [
      | inl same ↦ rw same refl
      | inr (x, found, allowed, set) ↦
          rw (set, found-id business db i x found)
            (invoices-kept i x (with_state (d.clock 0) t) found (λ y. refl))
    ]

    pub transition-Untouched :
        (i : ℕ) (t : InvoiceState)
        → Untouched o db (committed_by (transition_invoice_state d business i t) db)
    transition-Untouched i t =
        let (b, k, c, e) = transition-frame business db d i t in
        record {
          businesses = b;
          api_keys = k;
          customers = rw c refl;
          invoices = transition-invoices i t;
          webhook_endpoints = rw e refl;
        }

    create_invoice-invoices :
        (payload : InvoiceCreate)
        → select
            (invoice_of_business o)
            (committed_by (create_invoice d business payload) db).invoices
          ≡ select (invoice_of_business o) db.invoices
    create_invoice-invoices payload = elim (create_invoice-cases d business payload db).1 [
      | inl same ↦ rw same refl
      | inr (added, _) ↦ rw added (
          select-added (invoice_of_business o) db.invoices (draft_invoice d business payload) other)
    ]

    pub create_invoice-Untouched :
        (payload : InvoiceCreate)
        → Untouched o db (committed_by (create_invoice d business payload) db)
    create_invoice-Untouched payload =
        let (b, k, c, e) = create_invoice-frame business db d payload in
        record {
          businesses = b;
          api_keys = k;
          customers = rw c refl;
          invoices = create_invoice-invoices payload;
          webhook_endpoints = rw e refl;
        }

    pub create_customer-Untouched :
        (name email : String)
        → Untouched o db (committed_by (create_customer d business name email) db)
    create_customer-Untouched name email =
        elim (create_customer-committed_rows business db d name email) [
          | inl same ↦ rw same (Untouched-refl o db)
          | inr added ↦ rw added (record {
            businesses = refl;
            api_keys = refl;
            customers =
                select-added (of_business o) db.customers (new_customer d business name email)
                  other;
            invoices = refl;
            webhook_endpoints = refl;
          })
        ]

    pub create_endpoint-Untouched :
        (url secret : String)
        → Untouched o db (committed_by (create_endpoint d business url secret) db)
    create_endpoint-Untouched url secret =
        elim (create_endpoint-committed_rows business db d url secret) [
          | inl same ↦ rw same (Untouched-refl o db)
          | inr (added, _) ↦ rw added (record {
            businesses = refl;
            api_keys = refl;
            customers = refl;
            invoices = refl;
            webhook_endpoints =
                select-added (endpoint_of_business o) db.webhook_endpoints
                  (new_endpoint d business url secret) other;
          })
        ]

    endpoints-kept :
        (i : ℕ) (x : WebhookEndpoint)
        → find_endpoints business.id i db ≡ x ∷ []
        → select
            (endpoint_of_business o)
            (update_where (has_endpoint_id i) switched_off db.webhook_endpoints)
          ≡ select (endpoint_of_business o) db.webhook_endpoints
    unfolding find_endpoints
    endpoints-kept i x found =
        select-kept (endpoint_of_business o) (has_endpoint_id i) switched_off db.webhook_endpoints
          (λ y. refl)
          (owned-other_endpoints i db.webhook_endpoints (
            found-owned (has_endpoint_id i) (endpoint_of_business business.id) db.webhook_endpoints
              x (keyed.of_endpoints i) found))

    pub delete_endpoint-Untouched :
        (i : ℕ) → Untouched o db (delete_endpoint business i (open_session db)).1.committed
    delete_endpoint-Untouched i = elim (deactivate_endpoint-rows business db i) [
      | inl same ↦ rw same (Untouched-refl o db)
      | inr (x, found, set) ↦
          rw (set, endpoint-id business db i x found)
            (record {
              businesses = refl;
              api_keys = refl;
              customers = refl;
              invoices = refl;
              webhook_endpoints = endpoints-kept i x found;
            })
    ]
