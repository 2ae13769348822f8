-- ===== src/System/Stored.antt =====
-- What the tables hold at all times: keys, constraints, and totals that match their line items.
use mathlib.Core.Path.{sym}
use tenant_billing_service.Base.{
  ℕ, ◌+◌, ◌≡◌, refl, ap, ◌∙◌, inl, inr, Bool, true, List, [], ◌∷◌, any, select, update_where, All,
  Bool-cases,
}
use tenant_billing_service.Model.Invoice.{Invoice, InvoiceLineItem}
use tenant_billing_service.Model.Db.{Db}
use tenant_billing_service.Customers.Laws.{IsUnique}
use tenant_billing_service.Payment.Resolve.{has_invoice_id}
use tenant_billing_service.Invoices.{line_item_of}
use tenant_billing_service.Schemas.Laws.{IsChecked}
use tenant_billing_service.Worker.Retry.{IsSound}
use tenant_billing_service.App.Owners.{IsKeyed}

abbrev pub amount_of : List InvoiceLineItem → ℕ
amount_of [] = 0
amount_of (li ∷ items) = li.amount_cents + amount_of items

-- The foreign key of a line item.
abbrev pub HasInvoice : List Invoice → InvoiceLineItem → Type 0
HasInvoice invoices li = any (has_invoice_id li.invoice_id) invoices ≡ true

abbrev pub HasTotal : List InvoiceLineItem → Invoice → Type 0
HasTotal items x = x.total_cents ≡ amount_of (select (line_item_of x.id) items)

pub record IsStored (db : Db) : Type 0 where
  pub keys : IsKeyed db
  pub emails : IsUnique db.customers
  pub line_items : All IsChecked db.invoice_line_items
  pub of_invoices : All (HasInvoice db.invoices) db.invoice_line_items
  pub totals : All (HasTotal db.invoice_line_items) db.invoices
  pub outbox : All IsSound db.webhook_deliveries

-- An UPDATE of invoices that keeps identifiers and totals, or none.
pub data Updated (rows rows' : List Invoice) : Type 0 where
  same : rows' ≡ rows → Updated rows rows'
  updated :
      (q : Invoice → Bool) (f : Invoice → Invoice)
      → ((x : Invoice) → (f x).id ≡ x.id)
      → ((x : Invoice) → (f x).total_cents ≡ x.total_cents)
      → rows' ≡ update_where q f rows
      → Updated rows rows'

module _ (q : Invoice → Bool) (f : Invoice → Invoice) (keeps : (x : Invoice) → (f x).id ≡ x.id)
    (keeps_total : (x : Invoice) → (f x).total_cents ≡ x.total_cents) where
  any-updated :
      (i : ℕ) (rows : List Invoice)
      → any (has_invoice_id i) (update_where q f rows) ≡ any (has_invoice_id i) rows
  any-updated i [] = refl
  any-updated i (x ∷ rows) = elim (Bool-cases (q x)) [
    | inl named ↦ rw (named, keeps x, any-updated i rows) refl
    | inr other ↦ rw (other, any-updated i rows) refl
  ]

  HasInvoice-updated :
      (rows : List Invoice) (items : List InvoiceLineItem)
      → All (HasInvoice rows) items
      → All (HasInvoice (update_where q f rows)) items
  HasInvoice-updated rows [] h = tt
  HasInvoice-updated rows (li ∷ items) (first, h) =
      (any-updated li.invoice_id rows ∙ first, HasInvoice-updated rows items h)

  HasTotal-updated :
      (items : List InvoiceLineItem) (rows : List Invoice)
      → All (HasTotal items) rows
      → All (HasTotal items) (update_where q f rows)
  HasTotal-updated items [] h = tt
  HasTotal-updated items (x ∷ rows) (first, h) = elim (Bool-cases (q x)) [
    | inl named ↦ rw named (
      keeps_total x ∙ (first ∙ ap (λ i. amount_of (select (line_item_of i) items)) (sym (keeps x))),
      HasTotal-updated items rows h,
    )
    | inr other ↦ rw other (first, HasTotal-updated items rows h)
  ]

module _ (db db' : Db) (stored : IsStored db)
    (items : db'.invoice_line_items ≡ db.invoice_line_items) where
  of_invoices-kept :
      Updated db.invoices db'.invoices → All (HasInvoice db'.invoices) db'.invoice_line_items
  of_invoices-kept (same e) = rw (e, items) stored.of_invoices
  of_invoices-kept (updated q f keeps keeps_total e) =
      rw (e, items)
        (HasInvoice-updated q f keeps keeps_total db.invoices db.invoice_line_items
          stored.of_invoices)

  totals-kept :
      Updated db.invoices db'.invoices → All (HasTotal db'.invoice_line_items) db'.invoices
  totals-kept (same e) = rw (e, items) stored.totals
  totals-kept (updated q f keeps keeps_total e) =
      rw (e, items)
        (HasTotal-updated q f keeps keeps_total db.invoice_line_items db.invoices stored.totals)

  -- A change that writes no line item, and at most the states of invoices.
  pub IsStored-kept :
      IsKeyed db'
      → IsUnique db'.customers
      → Updated db.invoices db'.invoices
      → All IsSound db'.webhook_deliveries
      → IsStored db'
  IsStored-kept keys emails invoices outbox = record {
    keys = keys;
    emails = emails;
    line_items = rw items stored.line_items;
    of_invoices = of_invoices-kept invoices;
    totals = totals-kept invoices;
    outbox = outbox;
  }
