-- ===== src/Invoices.antt =====
-- app/services/invoice_service.py: creation, lookup and transitions of invoices, and the shapes of
-- app/schemas/invoice.py that they take.
pub mod Outcomes
pub mod Listing
pub mod Creation
use tenant_billing_service.Base.{
  ℕ, suc, ◌+◌, ◌*◌, ◌^◌, String, Bool, true, ◌&&◌, Option, none, some, List, [], ◌∷◌, ◌++◌, ◌==◌,
  leb, ltb, any, select, update_where, if◌then◌else◌,
}
use tenant_billing_service.Errors.{
  Result, ok, err, not_found, database, data_error, integrity, invoices_pkey,
}
use tenant_billing_service.Model.Invoice.{Invoice, InvoiceLineItem, InvoiceState, draft, value}
use tenant_billing_service.Model.Webhook.{text, uuid, int}
use tenant_billing_service.Model.Tenant.{Business, Customer}
use tenant_billing_service.Model.Db.{Db}
use tenant_billing_service.Session.{
  Action, pure, raise, lift, query, write, ◌>>=◌, ◌>>◌, scalar_one, scalar_one_or_none,
}
use tenant_billing_service.World.{World, Draws}
use tenant_billing_service.Machine.{assert_transition_allowed}
use tenant_billing_service.Outbox.{enqueue_event}
use tenant_billing_service.Payment.Start.{find_invoices}
use tenant_billing_service.Payment.Resolve.{has_invoice_id, invoices_by_id, set_invoice_state}

pub record InvoiceLineItemCreate : Type 0 where
  pub description : String
  pub quantity : ℕ
  pub unit_amount_cents : ℕ

pub record InvoiceCreate : Type 0 where
  pub customer_id : ℕ
  pub due_date : Option ℕ
  pub line_items : List InvoiceLineItemCreate

-- An invoice with the line items that `selectinload` brings.
pub record LoadedInvoice : Type 0 where
  pub invoice : Invoice
  pub line_items : List InvoiceLineItem

abbrev pub customer_of : ℕ → ℕ → Customer → Bool
customer_of business_id customer_id c = c.id == customer_id && c.business_id == business_id

unfoldable pub find_customers : ℕ → ℕ → Db → List Customer
find_customers business_id customer_id db =
    select (customer_of business_id customer_id) db.customers

-- `sum(li.quantity * li.unit_amount_cents for li in payload.line_items)`
unfoldable pub total_of : List InvoiceLineItemCreate → ℕ
total_of [] = 0
total_of (li ∷ items) = li.quantity * li.unit_amount_cents + total_of items

abbrev pub new_line_item : ℕ → ℕ → ℕ → InvoiceLineItemCreate → InvoiceLineItem
new_line_item id now invoice_id li = record {
  id = id;
  invoice_id = invoice_id;
  description = li.description;
  quantity = li.quantity;
  unit_amount_cents = li.unit_amount_cents;
  amount_cents = li.quantity * li.unit_amount_cents;
  created_at = now;
}

-- The rows of the loop over the line items; the n-th takes the n-th identifier.
unfoldable pub new_line_items :
    (ℕ → ℕ) → ℕ → ℕ → ℕ → List InvoiceLineItemCreate → List InvoiceLineItem
new_line_items ids n now invoice_id [] = []
new_line_items ids n now invoice_id (li ∷ items) =
    new_line_item (ids n) now invoice_id li ∷ new_line_items ids (suc n) now invoice_id items

-- The widths of the columns: INTEGER and BIGINT.
abbrev pub line_item_fits : InvoiceLineItem → Bool
line_item_fits li =
    ltb li.quantity (2 ^ 31) && (ltb li.unit_amount_cents (2 ^ 63) && ltb li.amount_cents (2 ^ 63))

unfoldable pub all_fit : List InvoiceLineItem → Bool
all_fit [] = true
all_fit (li ∷ items) = line_item_fits li && all_fit items

abbrev pub insert_unless_taken : Invoice → Bool → Action (Unit {0})
insert_unless_taken invoice taken =
    if ltb invoice.total_cents (2 ^ 63)
    then (if taken
        then raise (database (integrity invoices_pkey))
        else write (λ db. record db { invoices = db.invoices ++ invoice ∷ [] }))
    else raise (database data_error)

unfoldable pub insert_invoice : Invoice → Action (Unit {0})
insert_invoice invoice = do
  taken ← query (λ db. any (has_invoice_id invoice.id) db.invoices)
  insert_unless_taken invoice taken

unfoldable pub insert_line_items : List InvoiceLineItem → Action (Unit {0})
insert_line_items items =
    if all_fit items
    then write (λ db. record db { invoice_line_items = db.invoice_line_items ++ items })
    else raise (database data_error)

abbrev pub line_item_of : ℕ → InvoiceLineItem → Bool
line_item_of invoice_id li = li.invoice_id == invoice_id

abbrev pub with_line_items : Invoice → Action LoadedInvoice
with_line_items invoice = query (λ db. record {
  invoice = invoice;
  line_items = select (line_item_of invoice.id) db.invoice_line_items;
})

-- `select(Invoice).options(selectinload(Invoice.line_items)).where(Invoice.id == id)`, one row
unfoldable pub load_invoice : ℕ → Action LoadedInvoice
load_invoice id = do
  rows ← query (invoices_by_id id)
  invoice ← lift (scalar_one rows)
  with_line_items invoice

abbrev pub draft_invoice : Draws → Business → InvoiceCreate → Invoice
draft_invoice d business payload = record {
  id = d.uuid 0;
  business_id = business.id;
  customer_id = payload.customer_id;
  state = draft;
  total_cents = total_of payload.line_items;
  due_date = payload.due_date;
  created_at = d.clock 0;
  updated_at = d.clock 0;
}

-- The identifiers of the line items and of the outbox rows, drawn after the invoice's.
abbrev pub line_item_ids : Draws → ℕ → ℕ
line_item_ids d n = d.uuid (1 + 2 * n)

abbrev pub delivery_ids : Draws → ℕ → ℕ
delivery_ids d n = d.uuid (2 + 2 * n)

abbrev pub create_for : Draws → Business → InvoiceCreate → Option Customer → Action LoadedInvoice
create_for d business payload none = raise (not_found "Customer" none)
create_for d business payload (some customer) = do
  let invoice = draft_invoice d business payload
  insert_invoice invoice
  insert_line_items (new_line_items (line_item_ids d) 0 (d.clock 0) invoice.id payload.line_items)
  enqueue_event (delivery_ids d) (d.clock 0) business.id "invoice.created" (
      ("id", uuid invoice.id)
      ∷ ("customer_id", uuid invoice.customer_id)
      ∷ ("state", text (value invoice.state))
      ∷ ("total_cents", int invoice.total_cents)
      ∷ [])
  load_invoice invoice.id

unfoldable pub create_invoice : Draws → Business → InvoiceCreate → Action LoadedInvoice
create_invoice d business payload = do
  rows ← query (find_customers business.id payload.customer_id)
  customer ← lift (scalar_one_or_none rows)
  create_for d business payload customer

abbrev pub loaded_or_missing : Option Invoice → Action LoadedInvoice
loaded_or_missing none = raise (not_found "Invoice" none)
loaded_or_missing (some invoice) = with_line_items invoice

unfoldable pub get_invoice : Business → ℕ → Action LoadedInvoice
get_invoice business invoice_id = do
  rows ← query (find_invoices business.id invoice_id)
  invoice ← lift (scalar_one_or_none rows)
  loaded_or_missing invoice

-- The first half of `transition_invoice_state`: the invoice is read, with no lock, and its state
-- is checked.
unfoldable pub check_transition : Business → ℕ → InvoiceState → Action LoadedInvoice
check_transition business invoice_id target_state = do
  found ← get_invoice business invoice_id
  lift (assert_transition_allowed found.invoice.state target_state)
  pure found

-- The second half: the UPDATE, which names the row by its primary key alone, and the result.
unfoldable pub write_transition : ℕ → ℕ → InvoiceState → Action LoadedInvoice
write_transition now id target_state = do set_invoice_state id now target_state; load_invoice id

unfoldable pub transition_invoice_state : Draws → Business → ℕ → InvoiceState → Action LoadedInvoice
transition_invoice_state d business invoice_id target_state = do
  found ← check_transition business invoice_id target_state
  write_transition (d.clock 0) found.invoice.id target_state
