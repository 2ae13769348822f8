-- ===== src/Invoices/Outcomes.antt =====
-- What the handlers of app/routers/invoices.py leave committed: a new draft, a new state, or nothing.
use tenant_billing_service.Base.{
  ℕ, ◌≡◌, refl, ◌⊎◌, inl, inr, false, List, [], ◌∷◌, ◌++◌, arith, any, update_where,
}
use tenant_billing_service.Errors.{Result-cases, ok}
use tenant_billing_service.Model.Invoice.{Invoice, InvoiceState}
use tenant_billing_service.Model.Tenant.{Business}
use tenant_billing_service.Model.Db.{Db}
use tenant_billing_service.Session.{Session, committed_by}
use tenant_billing_service.World.{Draws}
use tenant_billing_service.Machine.{assert_transition_allowed}
use tenant_billing_service.Outbox.{enqueue_event}
use tenant_billing_service.Payment.Start.{find_invoices}
use tenant_billing_service.Payment.Resolve.{has_invoice_id, set_invoice_state}
use tenant_billing_service.Invoices.{
  InvoiceCreate, draft_invoice, create_invoice, insert_invoice, insert_line_items, load_invoice,
  get_invoice, check_transition, write_transition, transition_invoice_state,
}

abbrev pub with_state : ℕ → InvoiceState → Invoice → Invoice
with_state now target row = record row { state = target; updated_at = now }

-- A loaded invoice changes no table.
load_invoice-same : (id : ℕ) (s : Session) → (load_invoice id s).1 ≡ s
unfolding load_invoice
load_invoice-same id s = ground arith

pub get_invoice-same :
    (business : Business) (id : ℕ) (s : Session) → (get_invoice business id s).1 ≡ s
unfolding get_invoice
get_invoice-same business id s = ground arith

-- On any tables, what a creation commits touches no payment attempt, and adds to the invoices
-- either nothing or one draft with the sum of its line items and an identifier that was free.
pub create_invoice-cases :
    (d : Draws) (business : Business) (payload : InvoiceCreate) (db : Db)
    → let db' = committed_by (create_invoice d business payload) db in
      (db'.payment_attempts ≡ db.payment_attempts)
      × ((db'.invoices ≡ db.invoices)
          ⊎ ((db'.invoices ≡ db.invoices ++ draft_invoice d business payload ∷ [])
              × (any (has_invoice_id (d.uuid 0)) db.invoices ≡ false)))
unfolding create_invoice insert_invoice insert_line_items enqueue_event load_invoice
create_invoice-cases d business payload db = ground arith

module _ (d : Draws) (business : Business) (i : ℕ) (target : InvoiceState) (db : Db) where
  abbrev Outcome : Type 0
  Outcome =
      let db' = committed_by (transition_invoice_state d business i target) db in
      (db'.payment_attempts ≡ db.payment_attempts)
      × ((db'.invoices ≡ db.invoices)
          ⊎ ((invoice : Invoice) × (find_invoices business.id i db ≡ invoice ∷ [])
              × (assert_transition_allowed invoice.state target ≡ ok tt)
              × (db'.invoices
                  ≡ update_where (has_invoice_id invoice.id) (with_state (d.clock 0) target)
                      db.invoices)))

  -- An UPDATE is committed if the invoice can be loaded again.
  written-cases :
      (invoice : Invoice)
      → find_invoices business.id i db ≡ invoice ∷ []
      → assert_transition_allowed invoice.state target ≡ ok tt
      → let db' = committed_by (transition_invoice_state d business i target) db in
        (db'.payment_attempts ≡ db.payment_attempts)
        × ((db'.invoices ≡ db.invoices)
            ⊎ (db'.invoices
                ≡ update_where
                    (has_invoice_id invoice.id)
                    (with_state (d.clock 0) target)
                    db.invoices))
  unfolding transition_invoice_state check_transition get_invoice write_transition set_invoice_state
      load_invoice
  written-cases invoice found allowed = ground arith

  written :
      (invoice : Invoice)
      → find_invoices business.id i db ≡ invoice ∷ []
      → assert_transition_allowed invoice.state target ≡ ok tt
      → Outcome
  written invoice found allowed =
      let (same, ends) = written-cases invoice found allowed in
      (same, elim ends [ inl kept ↦ inl kept | inr set ↦ inr (invoice, found, allowed, set) ])

  outcome_found : (invoice : Invoice) → find_invoices business.id i db ≡ invoice ∷ [] → Outcome
  unfolding transition_invoice_state check_transition get_invoice write_transition set_invoice_state
      load_invoice
  outcome_found invoice found =
      elim (Result-cases (assert_transition_allowed invoice.state target)) [
        | inr (e, refused) ↦ (ground arith, inl (ground arith))
        | inl (_, allowed) ↦ written invoice found allowed
      ]

  outcome_of : (rows : List Invoice) → find_invoices business.id i db ≡ rows → Outcome
  unfolding transition_invoice_state check_transition get_invoice
  outcome_of [] found = (ground arith, inl (ground arith))
  outcome_of (invoice ∷ []) found = outcome_found invoice found
  outcome_of (x ∷ y ∷ rest) found = (ground arith, inl (ground arith))

  -- On any tables, what a transition commits touches no payment attempt, and either leaves the
  -- invoices or sets the state of the one invoice of the business that was found, from a state
  -- that allows the target.
  pub transition-cases :
      let db' = committed_by (transition_invoice_state d business i target) db in
      (db'.payment_attempts ≡ db.payment_attempts)
      × ((db'.invoices ≡ db.invoices)
          ⊎ ((invoice : Invoice) × (find_invoices business.id i db ≡ invoice ∷ [])
              × (assert_transition_allowed invoice.state target ≡ ok tt)
              × (db'.invoices
                  ≡ update_where
                      (has_invoice_id invoice.id)
                      (with_state (d.clock 0) target)
                      db.invoices)))
  transition-cases = outcome_of (find_invoices business.id i db) refl
