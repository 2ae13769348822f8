-- ===== src/App/Commits.antt =====
-- What the handlers of a tenant commit, table by table.
use Prim.Native.String.{count as chars}
use tenant_billing_service.Base.{
  ℕ, ◌≡◌, refl, ◌⊎◌, inl, inr, String, false, List, [], ◌∷◌, ◌++◌, arith, ==_iff, select-head,
  update_where, Bool-cases, any, leb,
}
use tenant_billing_service.Errors.{
  AppError, ok, err, database, data_error, integrity, webhook_endpoints_pkey,
}
use tenant_billing_service.Model.Invoice.{Invoice, InvoiceState}
use tenant_billing_service.Model.Webhook.{WebhookEndpoint}
use tenant_billing_service.Model.Tenant.{Business}
use tenant_billing_service.Model.Db.{Db}
use tenant_billing_service.Session.{open_session, committed_by}
use tenant_billing_service.World.{Draws}
use tenant_billing_service.Outbox.{enqueue_event}
use tenant_billing_service.Payment.Start.{find_invoices, invoice_of}
use tenant_billing_service.Payment.Resolve.{set_invoice_state}
use tenant_billing_service.Customers.{new_customer, insert_customer, create_customer}
use tenant_billing_service.Invoices.{
  InvoiceCreate, create_invoice, insert_invoice, insert_line_items, load_invoice, get_invoice,
  check_transition, write_transition, transition_invoice_state,
}
use tenant_billing_service.Endpoints.{
  has_endpoint_id, endpoint_of, new_endpoint, insert_endpoint, create_endpoint, find_endpoints,
  switched_off, deactivate_endpoint,
}
use tenant_billing_service.Routers.Webhooks.{delete_endpoint}

module _ (business : Business) (db : Db) where
  pub found-id : (i : ℕ) (x : Invoice) → find_invoices business.id i db ≡ x ∷ [] → x.id ≡ i
  unfolding find_invoices
  found-id i x found =
      (==_iff x.id i).0
        (ground (arith, select-head (invoice_of business.id i) db.invoices x [] found))

  deleted :
      (i : ℕ) (rows : List WebhookEndpoint)
      → find_endpoints business.id i db ≡ rows
      → let db' = (delete_endpoint business i (open_session db)).1.committed in
        (db' ≡ db)
        ⊎ ((x : WebhookEndpoint) × (find_endpoints business.id i db ≡ x ∷ [])
            × (db' ≡ record db {
              webhook_endpoints =
                  update_where (has_endpoint_id x.id) switched_off db.webhook_endpoints;
            }))
  unfolding delete_endpoint deactivate_endpoint
  deleted i [] found = inl (ground arith)
  deleted i (x ∷ []) found = inr (x, found, ground arith)
  deleted i (x ∷ y ∷ rows) found = inl (ground arith)

  pub endpoint-id :
      (i : ℕ) (x : WebhookEndpoint) → find_endpoints business.id i db ≡ x ∷ [] → x.id ≡ i
  unfolding find_endpoints
  endpoint-id i x found =
      (==_iff x.id i).0
        (ground (arith, select-head (endpoint_of business.id i) db.webhook_endpoints x [] found))

  pub deactivate_endpoint-rows :
      (i : ℕ)
      → let db' = (delete_endpoint business i (open_session db)).1.committed in
        (db' ≡ db)
        ⊎ ((x : WebhookEndpoint) × (find_endpoints business.id i db ≡ x ∷ [])
            × (db' ≡ record db {
              webhook_endpoints =
                  update_where (has_endpoint_id x.id) switched_off db.webhook_endpoints;
            }))
  deactivate_endpoint-rows i = deleted i (find_endpoints business.id i db) refl

  module _ (d : Draws) where
    pub transition-frame :
        (i : ℕ) (t : InvoiceState)
        → let db' = committed_by (transition_invoice_state d business i t) db in
          (db'.businesses ≡ db.businesses)
          × (db'.api_keys ≡ db.api_keys)
          × (db'.customers ≡ db.customers)
          × (db'.webhook_endpoints ≡ db.webhook_endpoints)
    unfolding transition_invoice_state check_transition get_invoice write_transition
        set_invoice_state load_invoice
    transition-frame i t = ground arith

    pub create_invoice-frame :
        (payload : InvoiceCreate)
        → let db' = committed_by (create_invoice d business payload) db in
          (db'.businesses ≡ db.businesses)
          × (db'.api_keys ≡ db.api_keys)
          × (db'.customers ≡ db.customers)
          × (db'.webhook_endpoints ≡ db.webhook_endpoints)
    unfolding create_invoice insert_invoice insert_line_items enqueue_event load_invoice
    create_invoice-frame payload = ground arith

    pub create_customer-committed_rows :
        (name email : String)
        → let db' = committed_by (create_customer d business name email) db in
          (db' ≡ db)
          ⊎ (db'
              ≡ record db { customers = db.customers ++ new_customer d business name email ∷ [] })
    unfolding create_customer insert_customer
    create_customer-committed_rows name email = ground arith

    inserted-cases :
        (x : WebhookEndpoint)
        → ((insert_endpoint x (open_session db) ≡ (
          ok tt,
          record (open_session db) {
            working = record db { webhook_endpoints = db.webhook_endpoints ++ x ∷ [] };
          },
        ))
            × (any (has_endpoint_id x.id) db.webhook_endpoints ≡ false))
          ⊎ ((e : AppError) × (insert_endpoint x (open_session db) ≡ (err e, open_session db)))
    unfolding insert_endpoint
    inserted-cases x = elim (Bool-cases (leb (chars x.url) 2000)) [
      | inr long ↦ inr (database data_error, ground arith)
      | inl fits ↦ elim (Bool-cases (any (has_endpoint_id x.id) db.webhook_endpoints)) [
        | inl taken ↦ inr (database (integrity webhook_endpoints_pkey), ground arith)
        | inr free ↦ inl (ground arith)
      ]
    ]

    pub create_endpoint-committed_rows :
        (url secret : String)
        → let db' = committed_by (create_endpoint d business url secret) db in
          (db' ≡ db)
          ⊎ ((db' ≡ record db {
            webhook_endpoints = db.webhook_endpoints ++ new_endpoint d business url secret ∷ [];
          })
              × (any (has_endpoint_id (d.uuid 0)) db.webhook_endpoints ≡ false))
    unfolding create_endpoint
    create_endpoint-committed_rows url secret =
        elim (inserted-cases (new_endpoint d business url secret)) [
          | inl r ↦ inr (ground arith)
          | inr (e, r) ↦ inl (ground arith)
        ]
