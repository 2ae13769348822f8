-- ===== src/Schemas/Laws.antt =====
-- What a handler can rely on of a request that is let through, and the CHECK constraints of
-- app/models/invoice.py for the rows that are made of it.
use Prim.Native.String.{count as chars}
use tenant_billing_service.Base.{
  ℕ, zero, suc, ◌*◌, ◌≤◌, ◌<◌, ◌≡◌, ◌≢◌, refl, ◌↔◌, ◌⊎◌, inl, inr, String, Option, none, some, List,
  [], ◌∷◌, ◌++◌, map, arith, All, All-append, Bool-cases,
}
use tenant_billing_service.Model.Invoice.{InvoiceLineItem}
use tenant_billing_service.Model.Tenant.{Business}
use tenant_billing_service.Model.Db.{Db}
use tenant_billing_service.Session.{committed_by}
use tenant_billing_service.World.{Draws}
use tenant_billing_service.Outbox.{enqueue_event}
use tenant_billing_service.Signing.Decimal.{ℤ, pos, negsuc}
use tenant_billing_service.Invoices.{
  InvoiceLineItemCreate, InvoiceCreate, new_line_items, line_item_ids, create_invoice,
  insert_invoice, insert_line_items, load_invoice,
}
use tenant_billing_service.Schemas.{
  gt_zero, ge_zero, has_length, RawLineItem, RawInvoice, line_item, both, invoice_with,
  validate_line_item, validate_line_items, validate_invoice,
}

-- The bounds that the schema states of a line item.
pub record IsInBounds (li : InvoiceLineItemCreate) : Type 0 where
  pub described : 1 ≤ chars li.description
  pub not_longer : chars li.description ≤ 500
  pub positive : 0 < li.quantity

abbrev pub raw_line_item : InvoiceLineItemCreate → RawLineItem
raw_line_item li = record {
  description = li.description;
  quantity = pos li.quantity;
  unit_amount_cents = pos li.unit_amount_cents;
}

abbrev pub raw_invoice : InvoiceCreate → RawInvoice
raw_invoice payload = record {
  customer_id = payload.customer_id;
  due_date = payload.due_date;
  line_items = map raw_line_item payload.line_items;
}

gt_zero-pos : (n : ℕ) → 0 < n → gt_zero (pos n) ≡ some n
gt_zero-pos zero h = absurd (omega arith)
gt_zero-pos (suc n) h = refl

line_item-accepted :
    (li : InvoiceLineItemCreate) → IsInBounds li → validate_line_item (raw_line_item li) ≡ some li
unfolding validate_line_item
line_item-accepted li h = rw (gt_zero-pos li.quantity h.positive) (ground arith)

-- What the numbers of an accepted line item were.
numbers_of :
    (d : String) (q u : ℤ) (li : InvoiceLineItemCreate)
    → line_item d (gt_zero q) (ge_zero u) ≡ some li
    → (d ≡ li.description)
      × (q ≡ pos li.quantity)
      × (u ≡ pos li.unit_amount_cents)
      × (0 < li.quantity)
numbers_of d (pos zero) u li h = cc
numbers_of d (pos (suc n)) (pos m) li h = ground arith
numbers_of d (pos (suc n)) (negsuc m) li h = cc
numbers_of d (negsuc n) u li h = cc

line_item-bounds :
    (raw : RawLineItem) (li : InvoiceLineItemCreate)
    → validate_line_item raw ≡ some li
    → (raw ≡ raw_line_item li) × IsInBounds li
unfolding validate_line_item
line_item-bounds raw li h = elim (Bool-cases (has_length 1 500 raw.description)) [
  | inl fits ↦
      let (d, q, u, positive) =
        numbers_of raw.description raw.quantity raw.unit_amount_cents li (rw fits at h) in
      (
        ground arith,
        record { described = ground arith; not_longer = ground arith; positive = positive },
      )
  | inr long ↦ cc (rw long at h)
]

items-accepted :
    (items : List InvoiceLineItemCreate)
    → All IsInBounds items
    → validate_line_items (map raw_line_item items) ≡ some items
unfolding validate_line_items
items-accepted [] h = refl
items-accepted (li ∷ items) (first, h) =
    rw (line_item-accepted li first, items-accepted items h) refl

both-cases :
    (x : Option InvoiceLineItemCreate) (xs : Option (List InvoiceLineItemCreate))
    (items : List InvoiceLineItemCreate)
    → both x xs ≡ some items
    → (li : InvoiceLineItemCreate) × (rest : List InvoiceLineItemCreate) × (x ≡ some li)
      × (xs ≡ some rest)
      × (items ≡ li ∷ rest)
both-cases none xs items h = cc
both-cases (some li) none items h = cc
both-cases (some li) (some rest) items h = (li, rest, refl, refl, ground arith)

items-bounds :
    (raws : List RawLineItem) (items : List InvoiceLineItemCreate)
    → validate_line_items raws ≡ some items
    → (raws ≡ map raw_line_item items) × All IsInBounds items
unfolding validate_line_items
items-bounds [] [] h = (refl, tt)
items-bounds [] (x ∷ xs) h = cc
items-bounds (raw ∷ raws) items h =
    let (li, rest, first, others, same) =
      both-cases (validate_line_item raw) (validate_line_items raws) items h in
    let (raw_same, fits) = line_item-bounds raw li first in
    let (raws_same, all_fit) = items-bounds raws rest others in
    rw same (ap2 raw_same raws_same, (fits, all_fit))
  where
    ap2 : {x y : RawLineItem} {xs ys : List RawLineItem} → x ≡ y → xs ≡ ys → x ∷ xs ≡ y ∷ ys
    ap2 e f = rw (e, f) refl

invoice_with-bounds :
    (raw : RawInvoice) (items : Option (List InvoiceLineItemCreate)) (payload : InvoiceCreate)
    → invoice_with raw items ≡ some payload
    → (items ≡ some payload.line_items)
      × (payload.line_items ≢ [])
      × (raw.customer_id ≡ payload.customer_id)
      × (raw.due_date ≡ payload.due_date)
invoice_with-bounds raw none payload h = cc
invoice_with-bounds raw (some []) payload h = cc
invoice_with-bounds raw (some (li ∷ items)) payload h =
    (ground arith, (λ e. ground arith), ground arith, ground arith)

invoice_with-items :
    (raw : RawInvoice) (items : List InvoiceLineItemCreate)
    → items ≢ []
    → invoice_with raw (some items)
      ≡ some (record { customer_id = raw.customer_id; due_date = raw.due_date; line_items = items })
invoice_with-items raw [] h = absurd (h refl)
invoice_with-items raw (li ∷ items) h = refl

-- Of the bodies of POST /invoices, exactly those are let through to the handler that have a line
-- item at least, and in each a description of 1 to 500 characters, a positive quantity, and a unit
-- amount that is not negative; and the handler gets what the body says.
pub validate_invoice_iff :
    (raw : RawInvoice) (payload : InvoiceCreate)
    → (validate_invoice raw ≡ some payload) ↔ (
        (raw ≡ raw_invoice payload) × (payload.line_items ≢ []) × All IsInBounds payload.line_items)
unfolding validate_invoice
validate_invoice_iff raw payload = (
  λ h.
      let (items, some_, customer, due) =
        invoice_with-bounds raw (validate_line_items raw.line_items) payload h in
      let (same, fits) = items-bounds raw.line_items payload.line_items items in
      (ground arith, some_, fits),
  λ h.
      let (same, some_, fits) = h in
      rw (same, items-accepted payload.line_items fits)
        (invoice_with-items (raw_invoice payload) payload.line_items some_),
)

-- The CHECK constraints and the width of a row of invoice_line_items.
pub record IsChecked (li : InvoiceLineItem) : Type 0 where
  pub qty_positive : 0 < li.quantity
  pub amount_matches : li.amount_cents ≡ li.quantity * li.unit_amount_cents
  pub fits : chars li.description ≤ 500

new_line_items-IsChecked :
    (ids : ℕ → ℕ) (n now invoice_id : ℕ) (items : List InvoiceLineItemCreate)
    → All IsInBounds items
    → All IsChecked (new_line_items ids n now invoice_id items)
unfolding new_line_items
new_line_items-IsChecked ids n now invoice_id [] h = tt
new_line_items-IsChecked ids n now invoice_id (li ∷ items) (first, h) = (
  record { qty_positive = first.positive; amount_matches = refl; fits = first.not_longer },
  new_line_items-IsChecked ids (suc n) now invoice_id items h,
)

module _ (d : Draws) (business : Business) (payload : InvoiceCreate) (db : Db) where
  line_items-committed :
      let db' = committed_by (create_invoice d business payload) db in
      (db'.invoice_line_items ≡ db.invoice_line_items)
      ⊎ (db'.invoice_line_items
          ≡ db.invoice_line_items
            ++ new_line_items (line_item_ids d) 0 (d.clock 0) (d.uuid 0) payload.line_items)
  unfolding create_invoice insert_invoice insert_line_items enqueue_event load_invoice
  line_items-committed = ground arith

  -- If every stored line item meets the CHECK constraints of its table and fits its column, then
  -- after whatever a creation commits for a body that the schema lets through, every one does.
  pub create_invoice-IsChecked :
      (raw : RawInvoice)
      → validate_invoice raw ≡ some payload
      → All IsChecked db.invoice_line_items
      → All IsChecked (committed_by (create_invoice d business payload) db).invoice_line_items
  create_invoice-IsChecked raw valid checked =
      let (same, some_, fits) = (validate_invoice_iff raw payload).0 valid in
      elim line_items-committed [
        | inl kept ↦ rw kept checked
        | inr added ↦ rw added (
            All-append IsChecked db.invoice_line_items
              (new_line_items (line_item_ids d) 0 (d.clock 0) (d.uuid 0) payload.line_items) checked
              (new_line_items-IsChecked (line_item_ids d) 0 (d.clock 0) (d.uuid 0)
                payload.line_items fits))
      ]
