-- ===== src/Schedule/Transitions.antt =====
-- The invariant of Schedule/Safety under a new invoice and under a new state of an invoice.
use tenant_billing_service.Base.{
  ℕ, ◌<◌, ◌≡◌, ◌≢◌, refl, ap, inl, inr, true, false, List, [], ◌∷◌, ◌++◌, arith, ◌==◌, ==_iff, any,
  count, select, update_where, All, All-append, Bool-cases,
}
use tenant_billing_service.Errors.{ok}
use tenant_billing_service.Model.Invoice.{Invoice, InvoiceState, paid}
use tenant_billing_service.Model.Payment.{PaymentAttempt}
use tenant_billing_service.Machine.{assert_transition_allowed}
use tenant_billing_service.Payment.Start.{invoice_of}
use tenant_billing_service.Payment.Resolve.{has_invoice_id}
use tenant_billing_service.Invoices.Outcomes.{with_state}
use tenant_billing_service.Schedule.{Flight}
use tenant_billing_service.Schedule.Rows.{is_succeeded_on, PaidIf, select-PaidIf, any-append_left}
use tenant_billing_service.Schedule.Safety.{IsKnown, IsSafe}
use tenant_billing_service.Schedule.Settle.{IsKnown-update, PaidIf-update_ne}

-- A succeeded attempt's invoice stands in the table.
known_of_succeeded :
    (i : ℕ) (invoices : List Invoice) (rows : List PaymentAttempt)
    → All (IsKnown invoices) rows
    → 0 < count (is_succeeded_on i) rows
    → any (has_invoice_id i) invoices ≡ true
known_of_succeeded i invoices [] h p = absurd (omega arith)
known_of_succeeded i invoices (a ∷ rows) (k, h) p = elim (Bool-cases (is_succeeded_on i a)) [
  | inl yes_ ↦ rw (← (==_iff a.invoice_id i).0 (ground arith)) k
  | inr no_ ↦ known_of_succeeded i invoices rows h (ground arith)
]

IsKnown-append :
    (invoices : List Invoice) (x : Invoice) (rows : List PaymentAttempt)
    → All (IsKnown invoices) rows
    → All (IsKnown (invoices ++ x ∷ [])) rows
IsKnown-append invoices x [] h = tt
IsKnown-append invoices x (a ∷ rows) (k, h) = (
  any-append_left (has_invoice_id a.invoice_id) invoices (x ∷ []) k,
  IsKnown-append invoices x rows h,
)

module _ (invoices : List Invoice) (rows : List PaymentAttempt) (flights : List Flight)
    (safe : IsSafe invoices rows flights) where
  -- A new invoice has an identifier that no attempt names.
  pub new_invoice-IsSafe :
      (x : Invoice)
      → any (has_invoice_id x.id) invoices ≡ false
      → IsSafe (invoices ++ x ∷ []) rows flights
  new_invoice-IsSafe x new_id = record {
    one_live = safe.one_live;
    paid_up = λ i h. All-append (PaidIf i) invoices (x ∷ []) (safe.paid_up i h) (
      λ e.
          let known = known_of_succeeded i invoices rows safe.known h in
          let same = (==_iff x.id i).0 e in
          cc (ap (λ (k : ℕ). any (has_invoice_id k) invoices) same),
      tt,
    );
    known = IsKnown-append invoices x rows safe.known;
    flying = safe.flying;
  }

  -- A transition that the state machine allows does not start from `paid`.
  pub set_state-IsSafe :
      (b i now : ℕ) (target : InvoiceState) (found : Invoice)
      → select (invoice_of b i) invoices ≡ found ∷ []
      → found.state ≢ paid
      → IsSafe (update_where (has_invoice_id i) (with_state now target) invoices) rows flights
  set_state-IsSafe b i now target found e unpaid = record {
    one_live = safe.one_live;
    paid_up = λ j h. elim (Bool-cases (i == j)) [
      | inl same ↦ absurd (
          unpaid
            (select-PaidIf b i invoices found [] (safe.paid_up i (rw ((==_iff i j).0 same) h)) e))
      | inr other ↦
          PaidIf-update_ne i (with_state now target) (λ x. refl) j invoices other (safe.paid_up j h)
    ];
    known = IsKnown-update i (with_state now target) (λ x. refl) invoices rows safe.known;
    flying = safe.flying;
  }

pub allowed-unpaid : (s t : InvoiceState) → assert_transition_allowed s t ≡ ok tt → s ≢ paid
unfolding assert_transition_allowed
allowed-unpaid s t h e = ground arith

pub found-id :
    (b i : ℕ) (invoices : List Invoice) (x : Invoice) (rest : List Invoice)
    → select (invoice_of b i) invoices ≡ x ∷ rest
    → x.id ≡ i
found-id b i [] x rest e = cc
found-id b i (y ∷ invoices) x rest e = ground (arith, found-id b i invoices x rest)
