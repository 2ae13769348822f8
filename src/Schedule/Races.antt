-- ===== src/Schedule/Races.antt =====
-- Transitions that other pieces interrupt: the check and the UPDATE of `transition_invoice_state`
-- hold no lock, so that the UPDATE does not know the state that it replaces.
use tenant_billing_service.Base.{ℕ, ◌≡◌, refl, List, [], ◌∷◌, arith, ◌∙◌, update_where, All}
use tenant_billing_service.Errors.{ok}
use tenant_billing_service.Model.Invoice.{Invoice, InvoiceState}
use tenant_billing_service.Model.Tenant.{Business}
use tenant_billing_service.Model.Db.{Db}
use tenant_billing_service.Session.{open_session, committed_by}
use tenant_billing_service.World.{World}
use tenant_billing_service.Payment.Resolve.{has_invoice_id, invoices_by_id, set_invoice_state}
use tenant_billing_service.Payment.Results.{invoice-refetched}
use tenant_billing_service.Invoices.{
  LoadedInvoice, check_transition, write_transition, load_invoice,
}
use tenant_billing_service.Invoices.Outcomes.{with_state}
use tenant_billing_service.Schedule.{
  Writer, System, Event, begin, resolve, crash, create, transition, check, update, step, run,
}
use tenant_billing_service.Schedule.Charges.{IsWhole}

-- Whole events leave the transitions that wait for their UPDATE.
step-writers :
    (w : World) (sys : System) (e : Event) → IsWhole e → (step w sys e).writers ≡ sys.writers
unfolding step
step-writers w sys (begin d business i token key) h = refl
step-writers w sys (resolve n d outcome) h = refl
step-writers w sys (crash n) h = refl
step-writers w sys (create d business payload) h = refl
step-writers w sys (transition d business i target) h = refl
step-writers w sys (check business i target) h = absurd h
step-writers w sys (update n now) h = absurd h

run-writers :
    (w : World) (sys : System) (events : List Event)
    → All IsWhole events
    → (run w sys events).writers ≡ sys.writers
unfolding run
run-writers w sys [] h = refl
run-writers w sys (e ∷ events) (whole, h) =
    run-writers w (step w sys e) events h ∙ step-writers w sys e whole

abbrev set_in : ℕ → ℕ → InvoiceState → Db → Db
set_in now id target db = record db {
  invoices = update_where (has_invoice_id id) (with_state now target) db.invoices;
}

-- The UPDATE and its commit, on a table with one row of the identifier.
write_transition-set :
    (now id : ℕ) (target : InvoiceState) (db : Db) (x : Invoice)
    → invoices_by_id id (set_in now id target db) ≡ with_state now target x ∷ []
    → committed_by (write_transition now id target) db ≡ set_in now id target db
unfolding write_transition set_invoice_state load_invoice
write_transition-set now id target db x found = ground arith

write_transition-committed :
    (now id : ℕ) (target : InvoiceState) (db : Db) (x : Invoice)
    → invoices_by_id id db ≡ x ∷ []
    → invoices_by_id id (committed_by (write_transition now id target) db)
      ≡ with_state now target x ∷ []
write_transition-committed now id target db x found =
    let again =
      invoice-refetched id db x (with_state now target) (set_in now id target db) (λ y. refl) found
        refl in
    rw (write_transition-set now id target db x again) again

module _ (w : World) (sys : System) (business : Business) (i now : ℕ) (target : InvoiceState)
    (found : LoadedInvoice) where
  writer-checked :
      (check_transition business i target (open_session sys.db)).0 ≡ ok found
      → (step w sys (check business i target)).writers
        ≡ record { invoice_id = found.invoice.id; target_state = target } ∷ sys.writers
  unfolding step
  writer-checked checked = rw checked

  update-head :
      (later : System) (others : List Writer)
      → later.writers ≡ record { invoice_id = found.invoice.id; target_state = target } ∷ others
      → (step w later (update 0 now)).db
        ≡ committed_by (write_transition now found.invoice.id target) later.db
  unfolding step
  update-head later others waits = rw waits

  -- If a transition has passed its check, then whatever whole events come before its UPDATE (a
  -- payment, for one), and whatever state they leave the invoice in, the UPDATE commits the
  -- transition's target.
  pub interrupted_transition-overwrites :
      (check_transition business i target (open_session sys.db)).0 ≡ ok found
      → (events : List Event) → All IsWhole events
      → (x : Invoice)
      → let later = run w (step w sys (check business i target)) events in
        invoices_by_id found.invoice.id later.db ≡ x ∷ []
        → invoices_by_id found.invoice.id (step w later (update 0 now)).db
          ≡ with_state now target x ∷ []
  interrupted_transition-overwrites checked events whole x stands =
      let later = run w (step w sys (check business i target)) events in
      rw
        (update-head later sys.writers (
          run-writers w (step w sys (check business i target)) events whole
          ∙ writer-checked checked))
        (write_transition-committed now found.invoice.id target later.db x stands)
