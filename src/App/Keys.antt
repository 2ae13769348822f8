-- ===== src/App/Keys.antt =====
-- The primary keys of invoices and endpoints hold after every request.
use tenant_billing_service.Base.{
  ℕ, ◌≤◌, ◌≡◌, refl, inl, inr, String, Bool, false, List, [], ◌∷◌, ◌++◌, arith, ◌==◌, ==_iff, any,
  any-count, count, count-append, update_where, Bool-cases,
}
use tenant_billing_service.Model.Invoice.{Invoice, InvoiceState}
use tenant_billing_service.Model.Webhook.{WebhookEndpoint}
use tenant_billing_service.Model.Tenant.{Business}
use tenant_billing_service.Model.Db.{Db}
use tenant_billing_service.Session.{open_session, committed_by}
use tenant_billing_service.World.{Draws}
use tenant_billing_service.Payment.Resolve.{has_invoice_id}
use tenant_billing_service.Customers.{create_customer}
use tenant_billing_service.Invoices.{
  InvoiceCreate, draft_invoice, create_invoice, transition_invoice_state,
}
use tenant_billing_service.Invoices.Outcomes.{with_state, create_invoice-cases, transition-cases}
use tenant_billing_service.Endpoints.{has_endpoint_id, new_endpoint, create_endpoint, switched_off}
use tenant_billing_service.Routers.Webhooks.{delete_endpoint}
use tenant_billing_service.App.Owners.{IsKeyed}
use tenant_billing_service.App.Commits.{
  deactivate_endpoint-rows, transition-frame, create_invoice-frame, create_customer-committed_rows,
  create_endpoint-committed_rows,
}

module _ {A : Type 0} (id_of : A → ℕ) where
  abbrev has : ℕ → A → Bool
  has i x = id_of x == i

  count-updated :
      (i : ℕ) (q : A → Bool) (f : A → A) (rows : List A)
      → ((x : A) → id_of (f x) ≡ id_of x)
      → count (has i) (update_where q f rows) ≡ count (has i) rows
  count-updated i q f [] keeps = refl
  count-updated i q f (x ∷ rows) keeps = elim (Bool-cases (q x)) [
    | inl named ↦ rw (named, keeps x, count-updated i q f rows keeps) refl
    | inr other ↦ rw (other, count-updated i q f rows keeps) refl
  ]

  count-added :
      (i : ℕ) (rows : List A) (x : A)
      → any (has (id_of x)) rows ≡ false
      → count (has i) rows ≤ 1
      → count (has i) (rows ++ x ∷ []) ≤ 1
  count-added i rows x free one = elim (Bool-cases (id_of x == i)) [
    | inl same ↦
        let new_ : count (has i) rows ≡ 0 =
          any-count (has i) rows (rw (← (==_iff (id_of x) i).0 same) free) in
        rw (count-append (has i) rows (x ∷ []), same) (omega arith)
    | inr other ↦ rw (count-append (has i) rows (x ∷ []), other) (omega arith)
  ]

module _ (business : Business) (db : Db) (keyed : IsKeyed db) where
  pub same_keys :
      (db' : Db)
      → db'.invoices ≡ db.invoices
      → db'.webhook_endpoints ≡ db.webhook_endpoints
      → IsKeyed db'
  same_keys db' same same' = record {
    of_invoices = λ i. rw same (keyed.of_invoices i);
    of_endpoints = λ i. rw same' (keyed.of_endpoints i);
  }

  pub updated_keys :
      (db' : Db) (q : Invoice → Bool) (f : Invoice → Invoice)
      → ((x : Invoice) → (f x).id ≡ x.id)
      → db'.invoices ≡ update_where q f db.invoices
      → db'.webhook_endpoints ≡ db.webhook_endpoints
      → IsKeyed db'
  updated_keys db' q f keeps set same = record {
    of_invoices = λ i.
        rw (set, count-updated (λ (x : Invoice). x.id) i q f db.invoices keeps)
          (keyed.of_invoices i);
    of_endpoints = λ i. rw same (keyed.of_endpoints i);
  }

  module _ (d : Draws) where
    pub transition-IsKeyed :
        (i : ℕ) (t : InvoiceState)
        → IsKeyed (committed_by (transition_invoice_state d business i t) db)
    transition-IsKeyed i t =
        let db' = committed_by (transition_invoice_state d business i t) db in
        let (b, k, c, e) = transition-frame business db d i t in
        elim (transition-cases d business i t db).1 [
          | inl same ↦ same_keys db' same e
          | inr (x, found, allowed, set) ↦
              updated_keys db' (has_invoice_id x.id) (with_state (d.clock 0) t) (λ y. refl) set e
        ]

    pub create_invoice-IsKeyed :
        (payload : InvoiceCreate) → IsKeyed (committed_by (create_invoice d business payload) db)
    create_invoice-IsKeyed payload =
        let db' = committed_by (create_invoice d business payload) db in
        let (b, k, c, e) = create_invoice-frame business db d payload in
        elim (create_invoice-cases d business payload db).1 [
          | inl same ↦ same_keys db' same e
          | inr (added, free) ↦ record {
            of_invoices = λ i. rw added (
                count-added (λ (x : Invoice). x.id) i db.invoices (draft_invoice d business payload)
                  free (keyed.of_invoices i));
            of_endpoints = λ i. rw e (keyed.of_endpoints i);
          }
        ]

    pub create_customer-IsKeyed :
        (name email : String) → IsKeyed (committed_by (create_customer d business name email) db)
    create_customer-IsKeyed name email =
        elim (create_customer-committed_rows business db d name email) [
          | inl same ↦ rw same keyed
          | inr added ↦ rw added (same_keys _ refl refl)
        ]

    pub create_endpoint-IsKeyed :
        (url secret : String) → IsKeyed (committed_by (create_endpoint d business url secret) db)
    create_endpoint-IsKeyed url secret =
        elim (create_endpoint-committed_rows business db d url secret) [
          | inl same ↦ rw same keyed
          | inr (added, free) ↦ rw added (record {
            of_invoices = keyed.of_invoices;
            of_endpoints = λ i.
                count-added (λ (x : WebhookEndpoint). x.id) i db.webhook_endpoints
                  (new_endpoint d business url secret) free (keyed.of_endpoints i);
          })
        ]

  pub delete_endpoint-IsKeyed :
      (i : ℕ) → IsKeyed (delete_endpoint business i (open_session db)).1.committed
  delete_endpoint-IsKeyed i = elim (deactivate_endpoint-rows business db i) [
    | inl same ↦ rw same keyed
    | inr (x, found, set) ↦ rw set (record {
      of_invoices = keyed.of_invoices;
      of_endpoints = λ j.
          rw
            (count-updated (λ (y : WebhookEndpoint). y.id) j (has_endpoint_id x.id) switched_off
              db.webhook_endpoints (λ y. refl))
            (keyed.of_endpoints j);
    })
  ]
