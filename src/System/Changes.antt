-- ===== src/System/Changes.antt =====
-- What each service commits, in the tables that the invariant speaks of.
use tenant_billing_service.Base.{
  ℕ, suc, ◌≡◌, ◌⊎◌, String, false, List, [], ◌∷◌, ◌++◌, arith, any, All, All-append,
}
use tenant_billing_service.Model.Invoice.{InvoiceState, value}
use tenant_billing_service.Model.Webhook.{Json, text, uuid, int, WebhookEndpoint, WebhookDelivery}
use tenant_billing_service.Model.Tenant.{Business}
use tenant_billing_service.Model.Db.{Db}
use tenant_billing_service.Session.{committed_by}
use tenant_billing_service.World.{Draws}
use tenant_billing_service.Outbox.{active_endpoints, new_deliveries, enqueue_event}
use tenant_billing_service.Payment.Resolve.{has_invoice_id, set_invoice_state}
use tenant_billing_service.Invoices.{
  InvoiceCreate, draft_invoice, delivery_ids, line_item_ids, new_line_items, create_invoice,
  insert_invoice, insert_line_items, load_invoice, get_invoice, check_transition, write_transition,
  transition_invoice_state,
}
use tenant_billing_service.Worker.Retry.{IsSound}

-- A row that is written to the outbox is sound.
pub new_deliveries-IsSound :
    (ids : ℕ → ℕ) (n now : ℕ) (event_type : String) (payload : List (String × Json))
    (endpoints : List WebhookEndpoint)
    → All IsSound (new_deliveries ids n now event_type payload endpoints)
unfolding new_deliveries
new_deliveries-IsSound ids n now event_type payload [] = tt
new_deliveries-IsSound ids n now event_type payload (endpoint ∷ endpoints) = (
  record {
    capped = omega arith;
    waiting = λ _. (omega arith, λ e. cc);
    done = λ e. cc;
    given_up = λ e. cc;
  },
  new_deliveries-IsSound ids (suc n) now event_type payload endpoints,
)

-- The outbox with new rows, or as it was.
pub data Enqueued (rows rows' : List WebhookDelivery) : Type 0 where
  unchanged : rows' ≡ rows → Enqueued rows rows'
  enqueued :
      (ids : ℕ → ℕ) (now : ℕ) (event_type : String) (payload : List (String × Json))
      (endpoints : List WebhookEndpoint)
      → rows' ≡ rows ++ new_deliveries ids 0 now event_type payload endpoints
      → Enqueued rows rows'

pub Enqueued-IsSound :
    (rows rows' : List WebhookDelivery) → Enqueued rows rows' → All IsSound rows → All IsSound rows'
Enqueued-IsSound rows rows' (unchanged e) h = rw e h
Enqueued-IsSound rows rows' (enqueued ids now event_type payload endpoints e) h = rw e (
    All-append IsSound rows (new_deliveries ids 0 now event_type payload endpoints) h
      (new_deliveries-IsSound ids 0 now event_type payload endpoints))

module _ (d : Draws) (business : Business) (db : Db) where
  pub transition-rest :
      (i : ℕ) (t : InvoiceState)
      → let db' = committed_by (transition_invoice_state d business i t) db in
        (db'.invoice_line_items ≡ db.invoice_line_items)
        × (db'.webhook_deliveries ≡ db.webhook_deliveries)
  unfolding transition_invoice_state check_transition get_invoice write_transition set_invoice_state
      load_invoice
  transition-rest i t = ground arith

  abbrev pub created : InvoiceCreate → List WebhookDelivery
  created payload =
      let invoice = draft_invoice d business payload in
      new_deliveries (delivery_ids d) 0 (d.clock 0) "invoice.created"
        (("id", uuid invoice.id)
          ∷ ("customer_id", uuid invoice.customer_id)
          ∷ ("state", text (value invoice.state))
          ∷ ("total_cents", int invoice.total_cents)
          ∷ [])
        (active_endpoints business.id db)

  pub create_invoice-whole :
      (payload : InvoiceCreate)
      → let db' = committed_by (create_invoice d business payload) db in
        (db' ≡ db)
        ⊎ ((any (has_invoice_id (d.uuid 0)) db.invoices ≡ false)
            × (db' ≡ record db {
              invoices = db.invoices ++ draft_invoice d business payload ∷ [];
              invoice_line_items =
                  db.invoice_line_items
                  ++ new_line_items (line_item_ids d) 0 (d.clock 0) (d.uuid 0) payload.line_items;
              webhook_deliveries = db.webhook_deliveries ++ created payload;
            }))
  unfolding create_invoice insert_invoice insert_line_items enqueue_event load_invoice
  create_invoice-whole payload = ground arith
