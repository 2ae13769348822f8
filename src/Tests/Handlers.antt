-- ===== src/Tests/Handlers.antt =====
-- The invoice handlers on the small world.
use tenant_billing_service.Base.{◌≡◌, ◌↔◌, none, [], ◌∷◌, ◌⊎◌, update_where}
use tenant_billing_service.Errors.{ok}
use tenant_billing_service.Model.Invoice.{Invoice, paid, void}
use tenant_billing_service.Session.{committed_by}
use tenant_billing_service.Machine.{assert_transition_allowed}
use tenant_billing_service.Machine.Laws.{Arrow, allowed_iff_Arrow}
use tenant_billing_service.Payment.Start.{find_invoices}
use tenant_billing_service.Payment.Resolve.{has_invoice_id}
use tenant_billing_service.Invoices.{InvoiceCreate, transition_invoice_state}
use tenant_billing_service.Invoices.Outcomes.{with_state, transition-cases}
use tenant_billing_service.Tests.World.{draws_from, acme, start_db}

abbrev order : InvoiceCreate
order = record {
  customer_id = 10;
  due_date = none;
  line_items = record { description = "seats"; quantity = 3; unit_amount_cents = 500 } ∷ [];
}

allowed_iff_Arrow_example : (assert_transition_allowed paid void ≡ ok tt) ↔ Arrow paid void
allowed_iff_Arrow_example = allowed_iff_Arrow paid void

transition-cases_example :
    let db' = committed_by (transition_invoice_state (draws_from 100) acme 30 void) start_db in
    (db'.payment_attempts ≡ start_db.payment_attempts)
    × ((db'.invoices ≡ start_db.invoices)
        ⊎ ((invoice : Invoice) × (find_invoices 1 30 start_db ≡ invoice ∷ [])
            × (assert_transition_allowed invoice.state void ≡ ok tt)
            × (db'.invoices
                ≡ update_where
                    (has_invoice_id invoice.id)
                    (with_state 100 void)
                    start_db.invoices)))
transition-cases_example = transition-cases (draws_from 100) acme 30 void start_db
