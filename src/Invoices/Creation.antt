-- ===== src/Invoices/Creation.antt =====
-- What `create_invoice` of app/services/invoice_service.py makes of a customer's order.
use tenant_billing_service.Base.{
  ℕ, suc, ◌+◌, ◌*◌, ◌^◌, ◌<◌, ◌≡◌, refl, ap, true, false, String, List, [], ◌∷◌, ◌++◌, map, arith,
  any, ltb, ==_refl, select, select-append, select-none, All,
}
use tenant_billing_service.Errors.{ok}
use tenant_billing_service.Model.Invoice.{Invoice, InvoiceLineItem, draft}
use tenant_billing_service.Model.Tenant.{Business, Customer}
use tenant_billing_service.Model.Webhook.{WebhookDelivery, Json, uuid, text, int}
use tenant_billing_service.Model.Db.{Db}
use tenant_billing_service.Session.{Session, Action, open_session, committed_by}
use tenant_billing_service.World.{Draws}
use tenant_billing_service.Outbox.{enqueue_event, new_deliveries, active_endpoints}
use tenant_billing_service.Outbox.Laws.{
  IsNew, recipients, ids_of, new_deliveries-recipients, new_deliveries-IsNew,
}
use tenant_billing_service.Payment.Resolve.{has_invoice_id, invoices_by_id}
use tenant_billing_service.Invoices.{
  InvoiceLineItemCreate, InvoiceCreate, LoadedInvoice, find_customers, total_of, new_line_items,
  all_fit, line_item_ids, delivery_ids, draft_invoice, create_invoice, insert_invoice,
  insert_line_items, load_invoice, line_item_of,
}

abbrev pub sum : List ℕ → ℕ
sum [] = 0
sum (n ∷ ns) = n + sum ns

-- What an order comes to.
abbrev pub amounts : List InvoiceLineItemCreate → List ℕ
amounts items = map (λ (li : InvoiceLineItemCreate). li.quantity * li.unit_amount_cents) items

-- The values of a line item fit their columns, INTEGER and BIGINT.
abbrev pub Fits : InvoiceLineItemCreate → Type 0
Fits li =
    (li.quantity < 2 ^ 31)
    × (li.unit_amount_cents < 2 ^ 63)
    × (li.quantity * li.unit_amount_cents < 2 ^ 63)

-- One row for each line item, in order.
abbrev pub EachLine : ℕ → List InvoiceLineItemCreate → List InvoiceLineItem → Type 0
EachLine invoice_id [] [] = Unit
EachLine invoice_id [] (row ∷ rows) = ⊥
EachLine invoice_id (li ∷ items) [] = ⊥
EachLine invoice_id (li ∷ items) (row ∷ rows) =
    ((row.invoice_id ≡ invoice_id)
      × (row.description ≡ li.description)
      × (row.quantity ≡ li.quantity)
      × (row.unit_amount_cents ≡ li.unit_amount_cents)
      × (row.amount_cents ≡ li.quantity * li.unit_amount_cents))
    × EachLine invoice_id items rows

total-sum : (items : List InvoiceLineItemCreate) → total_of items ≡ sum (amounts items)
unfolding total_of
total-sum [] = refl
total-sum (li ∷ items) = ap (λ n. li.quantity * li.unit_amount_cents + n) (total-sum items)

committed_ok :
    (m : Action LoadedInvoice) (db : Db) (a : LoadedInvoice) (s : Session)
    → m (open_session db) ≡ (ok a, s)
    → committed_by m db ≡ s.working
committed_ok m db a s e = ground arith

module _ (ids : ℕ → ℕ) (now invoice_id : ℕ) where
  lines-EachLine :
      (n : ℕ) (items : List InvoiceLineItemCreate)
      → EachLine invoice_id items (new_line_items ids n now invoice_id items)
  unfolding new_line_items
  lines-EachLine n [] = tt
  lines-EachLine n (li ∷ items) = ((refl, refl, refl, refl, refl), lines-EachLine (suc n) items)

  lines-fit :
      (n : ℕ) (items : List InvoiceLineItemCreate)
      → All Fits items
      → all_fit (new_line_items ids n now invoice_id items) ≡ true
  unfolding new_line_items all_fit
  lines-fit n [] h = refl
  lines-fit n (li ∷ items) ((q, u, a), h) = ground (arith, lines-fit (suc n) items h)

module _ (d : Draws) (business : Business) (payload : InvoiceCreate) (db : Db) where
  abbrev invoice : Invoice
  invoice = draft_invoice d business payload

  loaded_again :
      any (has_invoice_id (d.uuid 0)) db.invoices ≡ false
      → select (has_invoice_id (d.uuid 0)) (db.invoices ++ invoice ∷ []) ≡ invoice ∷ []
  loaded_again free =
      rw (select-append, select-none (has_invoice_id (d.uuid 0)) db.invoices free)
        (ground (arith, ==_refl (d.uuid 0)))

  abbrev items : List InvoiceLineItem
  items = new_line_items (line_item_ids d) 0 (d.clock 0) (d.uuid 0) payload.line_items

  abbrev event : List (String × Json)
  event =
      ("id", uuid (d.uuid 0))
      ∷ ("customer_id", uuid payload.customer_id)
      ∷ ("state", text "draft")
      ∷ ("total_cents", int (total_of payload.line_items))
      ∷ []

  abbrev rows : List WebhookDelivery
  rows =
      new_deliveries (delivery_ids d) 0 (d.clock 0) "invoice.created" event
        (active_endpoints business.id db)

  abbrev loaded : LoadedInvoice
  loaded = record {
    invoice = invoice;
    line_items = select (line_item_of (d.uuid 0)) (db.invoice_line_items ++ items);
  }

  abbrev written : Session
  written = record (open_session db) {
    working = record db {
      invoices = db.invoices ++ invoice ∷ [];
      invoice_line_items = db.invoice_line_items ++ items;
      webhook_deliveries = db.webhook_deliveries ++ rows;
    };
  }

  load_one :
      (s : Session)
      → select (has_invoice_id (d.uuid 0)) s.working.invoices ≡ invoice ∷ []
      → load_invoice (d.uuid 0) s ≡ (
        ok (record {
          invoice = invoice;
          line_items = select (line_item_of (d.uuid 0)) s.working.invoice_line_items;
        }),
        s,
      )
  unfolding load_invoice invoices_by_id
  load_one s found = rw found refl

  abbrev with_invoice : Session
  with_invoice = record (open_session db) {
    working = record db { invoices = db.invoices ++ invoice ∷ [] };
  }

  abbrev with_lines : Session
  with_lines = record with_invoice {
    working = record (with_invoice.working) { invoice_line_items = db.invoice_line_items ++ items };
  }

  inserted :
      any (has_invoice_id (d.uuid 0)) db.invoices ≡ false
      → ltb (total_of payload.line_items) (2 ^ 63) ≡ true
      → insert_invoice invoice (open_session db) ≡ (ok tt, with_invoice)
  unfolding insert_invoice
  inserted free small = ground arith

  lines_inserted : all_fit items ≡ true → insert_line_items items with_invoice ≡ (ok tt, with_lines)
  unfolding insert_line_items
  lines_inserted fits = rw fits refl

  created :
      (customer : Customer)
      → find_customers business.id payload.customer_id db ≡ customer ∷ []
      → any (has_invoice_id (d.uuid 0)) db.invoices ≡ false
      → all_fit items ≡ true
      → ltb (total_of payload.line_items) (2 ^ 63) ≡ true
      → create_invoice d business payload (open_session db) ≡ (ok loaded, written)
  unfolding create_invoice enqueue_event active_endpoints
  created customer found free fits small =
      ground (
        arith,
        found,
        inserted free small,
        lines_inserted fits,
        load_one written (loaded_again free),
      )

  -- If the business has the customer once, the drawn identifier is free, and the values and the sum
  -- of the line items fit their columns, then a creation returns an invoice in the state `draft`
  -- whose total is the sum of quantity times unit amount over the line items. Committed are that
  -- invoice, one row for each line item with its quantity, unit amount and their product, one new
  -- row "invoice.created" in the outbox for each active endpoint of the business, and nothing else.
  pub create_invoice-drafts :
      (customer : Customer)
      → find_customers business.id payload.customer_id db ≡ customer ∷ []
      → any (has_invoice_id (d.uuid 0)) db.invoices ≡ false
      → All Fits payload.line_items
      → sum (amounts payload.line_items) < 2 ^ 63
      → let x : Invoice = record {
        id = d.uuid 0;
        business_id = business.id;
        customer_id = payload.customer_id;
        state = draft;
        total_cents = sum (amounts payload.line_items);
        due_date = payload.due_date;
        created_at = d.clock 0;
        updated_at = d.clock 0;
      } in
        (loaded : LoadedInvoice) × (items : List InvoiceLineItem) × (rows : List WebhookDelivery)
        × ((create_invoice d business payload (open_session db)).0 ≡ ok loaded)
        × (loaded.invoice ≡ x)
        × (committed_by (create_invoice d business payload) db ≡ record db {
          invoices = db.invoices ++ x ∷ [];
          invoice_line_items = db.invoice_line_items ++ items;
          webhook_deliveries = db.webhook_deliveries ++ rows;
        })
        × EachLine (d.uuid 0) payload.line_items items
        × (recipients rows ≡ ids_of (active_endpoints business.id db))
        × All
            (IsNew (d.clock 0) "invoice.created" (
              ("id", uuid (d.uuid 0))
              ∷ ("customer_id", uuid payload.customer_id)
              ∷ ("state", text "draft")
              ∷ ("total_cents", int (sum (amounts payload.line_items)))
              ∷ []))
            rows
  unfolding active_endpoints
  create_invoice-drafts customer found free fit small =
      let fits = lines-fit (line_item_ids d) (d.clock 0) (d.uuid 0) 0 payload.line_items fit in
      let total = total-sum payload.line_items in
      let done = created customer found free fits (ground (arith, total, small)) in
      rw (← total) (
        loaded,
        items,
        rows,
        rw done refl,
        refl,
        committed_ok (create_invoice d business payload) db loaded written done,
        lines-EachLine (line_item_ids d) (d.clock 0) (d.uuid 0) 0 payload.line_items,
        new_deliveries-recipients (delivery_ids d) (d.clock 0) "invoice.created" event 0
            (active_endpoints business.id db),
        new_deliveries-IsNew (delivery_ids d) (d.clock 0) "invoice.created" event 0
            (active_endpoints business.id db),
      )
