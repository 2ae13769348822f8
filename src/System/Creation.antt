-- ===== src/System/Creation.antt =====
-- A new invoice has the total of its line items, and leaves the others theirs.
use mathlib.Core.Path.{sym}
use tenant_billing_service.Base.{
  ℕ, suc, ◌≡◌, refl, ap, ◌∙◌, inl, inr, true, false, List, [], ◌∷◌, ◌++◌, arith, ◌==◌, ==_iff,
  ==_refl, any, select, select-append, All, All-append, Bool-cases, some,
}
use tenant_billing_service.Model.Invoice.{Invoice, InvoiceLineItem}
use tenant_billing_service.Model.Tenant.{Business}
use tenant_billing_service.Model.Db.{Db}
use tenant_billing_service.Session.{committed_by}
use tenant_billing_service.World.{Draws}
use tenant_billing_service.Payment.Resolve.{has_invoice_id}
use tenant_billing_service.Invoices.{
  InvoiceLineItemCreate, InvoiceCreate, line_item_of, total_of, new_line_items, line_item_ids,
  draft_invoice, create_invoice,
}
use tenant_billing_service.Schemas.{RawInvoice, validate_invoice}
use tenant_billing_service.Schemas.Laws.{create_invoice-IsChecked}
use tenant_billing_service.App.Keys.{create_invoice-IsKeyed}
use tenant_billing_service.System.Stored.{amount_of, HasInvoice, HasTotal, IsStored}
use tenant_billing_service.System.Changes.{create_invoice-whole, created, new_deliveries-IsSound}

module _ (ids : ℕ → ℕ) (now id : ℕ) where
  own-amount :
      (n : ℕ) (items : List InvoiceLineItemCreate)
      → amount_of (select (line_item_of id) (new_line_items ids n now id items)) ≡ total_of items
  unfolding new_line_items total_of
  own-amount n [] = refl
  own-amount n (li ∷ items) = rw (==_refl id, own-amount (suc n) items) refl

  others-none :
      (i n : ℕ) (items : List InvoiceLineItemCreate)
      → (id == i) ≡ false
      → select (line_item_of i) (new_line_items ids n now id items) ≡ []
  unfolding new_line_items
  others-none i n [] ne = refl
  others-none i n (li ∷ items) ne = rw (ne, others-none i (suc n) items ne) refl

  own-HasInvoice :
      (rows : List Invoice) (n : ℕ) (items : List InvoiceLineItemCreate)
      → any (has_invoice_id id) rows ≡ true
      → All (HasInvoice rows) (new_line_items ids n now id items)
  unfolding new_line_items
  own-HasInvoice rows n [] h = tt
  own-HasInvoice rows n (li ∷ items) h = (h, own-HasInvoice rows (suc n) items h)

none_before :
    (i : ℕ) (rows : List Invoice) (items : List InvoiceLineItem)
    → any (has_invoice_id i) rows ≡ false
    → All (HasInvoice rows) items
    → select (line_item_of i) items ≡ []
none_before i rows [] free h = refl
none_before i rows (li ∷ items) free (first, h) = elim (Bool-cases (li.invoice_id == i)) [
  | inl same ↦ cc (free, rw ((==_iff li.invoice_id i).0 same) at first)
  | inr other ↦ rw other (none_before i rows items free h)
]

any-added :
    (i : ℕ) (rows : List Invoice) (x : Invoice)
    → any (has_invoice_id i) rows ≡ true
    → any (has_invoice_id i) (rows ++ x ∷ []) ≡ true
any-added i [] x h = cc
any-added i (y ∷ rows) x h = elim (Bool-cases (y.id == i)) [
  | inl same ↦ rw same refl
  | inr other ↦ rw other (any-added i rows x (rw other at h))
]

any-last : (rows : List Invoice) (x : Invoice) → any (has_invoice_id x.id) (rows ++ x ∷ []) ≡ true
any-last [] x = rw (==_refl x.id) refl
any-last (y ∷ rows) x = elim (Bool-cases (y.id == x.id)) [
  | inl same ↦ rw same refl
  | inr other ↦ rw other (any-last rows x)
]

HasInvoice-added :
    (rows : List Invoice) (x : Invoice) (items : List InvoiceLineItem)
    → All (HasInvoice rows) items
    → All (HasInvoice (rows ++ x ∷ [])) items
HasInvoice-added rows x [] h = tt
HasInvoice-added rows x (li ∷ items) (first, h) =
    (any-added li.invoice_id rows x first, HasInvoice-added rows x items h)

-- The line items of a new invoice are not those of the others.
HasTotal-added :
    (id : ℕ) (items new_items : List InvoiceLineItem) (rows : List Invoice)
    → ((i : ℕ) → (id == i) ≡ false → select (line_item_of i) new_items ≡ [])
    → any (has_invoice_id id) rows ≡ false
    → All (HasTotal items) rows
    → All (HasTotal (items ++ new_items)) rows
HasTotal-added id items new_items [] none_of free h = tt
HasTotal-added id items new_items (x ∷ rows) none_of free (first, h) =
    elim (Bool-cases (x.id == id)) [
      | inl same ↦ cc (rw same at free)
      | inr other ↦ (
        first
            ∙ rw (select-append (line_item_of x.id) items new_items, none_of x.id (ground arith))
                (ap amount_of (sym (append_nil (select (line_item_of x.id) items)))),
        HasTotal-added id items new_items rows none_of (rw other at free) h,
      )
    ]
  where
    append_nil : (xs : List InvoiceLineItem) → xs ++ [] ≡ xs
    append_nil [] = refl
    append_nil (y ∷ ys) = ap (λ zs. y ∷ zs) (append_nil ys)

module _ (d : Draws) (business : Business) (db : Db) (stored : IsStored db) where
  own-total :
      (payload : InvoiceCreate)
      → any (has_invoice_id (d.uuid 0)) db.invoices ≡ false
      → let items = new_line_items (line_item_ids d) 0 (d.clock 0) (d.uuid 0) payload.line_items in
        HasTotal (db.invoice_line_items ++ items) (draft_invoice d business payload)
  own-total payload free =
      let items = new_line_items (line_item_ids d) 0 (d.clock 0) (d.uuid 0) payload.line_items in
      rw
        (
          select-append (line_item_of (d.uuid 0)) db.invoice_line_items items,
          none_before (d.uuid 0) db.invoices db.invoice_line_items free stored.of_invoices,
        )
        (sym (own-amount (line_item_ids d) (d.clock 0) (d.uuid 0) 0 payload.line_items))

  pub create_invoice-IsStored :
      (raw : RawInvoice) (payload : InvoiceCreate)
      → validate_invoice raw ≡ some payload
      → IsStored (committed_by (create_invoice d business payload) db)
  create_invoice-IsStored raw payload valid =
      let keys = create_invoice-IsKeyed business db stored.keys d payload in
      let checked = create_invoice-IsChecked d business payload db raw valid stored.line_items in
      let invoice = draft_invoice d business payload in
      let items = new_line_items (line_item_ids d) 0 (d.clock 0) (d.uuid 0) payload.line_items in
      elim (create_invoice-whole d business db payload) [
        | inl unchanged ↦ rw unchanged stored
        | inr (free, whole) ↦ rw whole (record {
          keys = rw whole at keys;
          emails = stored.emails;
          line_items = rw whole at checked;
          of_invoices =
              All-append (HasInvoice (db.invoices ++ invoice ∷ [])) db.invoice_line_items items
                (HasInvoice-added db.invoices invoice db.invoice_line_items stored.of_invoices)
                (own-HasInvoice (line_item_ids d) (d.clock 0) (d.uuid 0)
                  (db.invoices ++ invoice ∷ []) 0 payload.line_items
                  (any-last db.invoices invoice));
          totals =
              All-append (HasTotal (db.invoice_line_items ++ items)) db.invoices (invoice ∷ [])
                (HasTotal-added (d.uuid 0) db.invoice_line_items items db.invoices
                  (λ i ne.
                    others-none (line_item_ids d) (d.clock 0) (d.uuid 0) i 0 payload.line_items ne)
                  free stored.totals)
                (own-total payload free, tt);
          outbox =
              All-append _ db.webhook_deliveries (created d business db payload) stored.outbox
                (new_deliveries-IsSound _ _ _ _ _ _);
        })
      ]
