-- ===== src/Routers/Laws.antt =====
-- What clients of the handlers can rely on.
use tenant_billing_service.Base.{ℕ, ◌≡◌, ◌≢◌, [], ◌∷◌, arith}
use tenant_billing_service.Errors.{Result, ok, err, transition_message}
use tenant_billing_service.Model.Invoice.{Invoice, InvoiceState}
use tenant_billing_service.Model.Tenant.{Business}
use tenant_billing_service.Session.{Session}
use tenant_billing_service.World.{Draws}
use tenant_billing_service.Machine.{assert_transition_allowed}
use tenant_billing_service.Machine.Laws.{refusal, assert-refusal}
use tenant_billing_service.Payment.Start.{find_invoices}
use tenant_billing_service.Payment.Resolve.{set_invoice_state}
use tenant_billing_service.Invoices.{
  LoadedInvoice, InvoiceCreate, transition_invoice_state, create_invoice, check_transition,
  write_transition, get_invoice, load_invoice, insert_invoice, insert_line_items,
}
use tenant_billing_service.Outbox.{enqueue_event}
use tenant_billing_service.Routers.Payments.{Answer, respond, http_exception}
use tenant_billing_service.Routers.Invoices.{
  and_commit, answer_transition, answer_creation, post_transition, post_invoice,
}

-- An answer other than a response.
abbrev pub IsRefusal : {A : Type 0} → Answer A → Type 0
IsRefusal (respond code a) = ⊥
IsRefusal _ = Unit

-- A handler whose service commits nothing, and which only answers failures by refusals.
and_commit-refused :
    (p : Result LoadedInvoice × Session) (answer : Result LoadedInvoice → Answer LoadedInvoice)
    (s : Session)
    → ((x : LoadedInvoice) → IsRefusal (answer (ok x)) → ⊥)
    → p.1.committed ≡ s.committed
    → IsRefusal (and_commit (λ _. p) answer s).0
    → (and_commit (λ _. p) answer s).1.committed ≡ s.committed
and_commit-refused (ok x, s') answer s responds same refused = absurd (responds x refused)
and_commit-refused (err e, s') answer s responds same refused = same

module _ (d : Draws) (business : Business) (s : Session) where
  transition-uncommitted :
      (i : ℕ) (t : InvoiceState)
      → (transition_invoice_state d business i t s).1.committed ≡ s.committed
  unfolding transition_invoice_state check_transition get_invoice write_transition set_invoice_state
      load_invoice
  transition-uncommitted i t = ground arith

  create-uncommitted :
      (payload : InvoiceCreate) → (create_invoice d business payload s).1.committed ≡ s.committed
  unfolding create_invoice insert_invoice insert_line_items enqueue_event load_invoice
  create-uncommitted payload = ground arith

  -- If POST /invoices and a transition are answered by anything but a response, then the committed
  -- tables are as they were, also where some of the rows had been flushed.
  refused-unchanged :
      (payload : InvoiceCreate) (i : ℕ) (t : InvoiceState)
      → IsRefusal (post_invoice d business payload s).0
      → IsRefusal (post_transition d business i t s).0
      → ((post_invoice d business payload s).1.committed ≡ s.committed)
        × ((post_transition d business i t s).1.committed ≡ s.committed)
  unfolding post_invoice post_transition answer_creation answer_transition
  refused-unchanged payload i t refused refused' = (
    and_commit-refused (create_invoice d business payload s) answer_creation s (λ x r. r)
        (create-uncommitted payload) refused,
    and_commit-refused (transition_invoice_state d business i t s) answer_transition s (λ x r. r)
        (transition-uncommitted i t) refused',
  )

  -- A transition of an invoice of the business for which the state machine has no arrow is answered
  -- with 422 and the message of the exception, and changes nothing.
  post_transition-refused :
      (i : ℕ) (t : InvoiceState) (x : Invoice)
      → find_invoices business.id i s.working ≡ x ∷ []
      → assert_transition_allowed x.state t ≢ ok tt
      → post_transition d business i t s
        ≡ (http_exception 422 (transition_message (refusal x.state t)), s)
  unfolding post_transition answer_transition transition_invoice_state check_transition get_invoice
  post_transition-refused i t x found not_allowed =
      ground (arith, assert-refusal x.state t not_allowed)
