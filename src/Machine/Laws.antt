-- ===== src/Machine/Laws.antt =====
-- The state machine of app/services/invoice_state.py against the diagram of DESIGN.md, section 2.
use Prim.Native.String.{◌++◌}
use tenant_billing_service.Base.{◌≡◌, refl, ◌≢◌, ◌↔◌, true, some, none, arith, if◌then◌else◌}
use tenant_billing_service.Errors.{ok, err, Transition, invalid_state_transition}
use tenant_billing_service.Model.Invoice.{
  InvoiceState, draft, open_, paid, void, uncollectible, in_states, terminal_states, value,
}
use tenant_billing_service.Machine.{assert_transition_allowed}

-- The arrows of the diagram.
pub data Arrow : InvoiceState → InvoiceState → Type 0 where
  finalize : Arrow draft open_
  pay : Arrow open_ paid
  void_it : Arrow open_ void
  write_off : Arrow open_ uncollectible

-- The paths along the arrows.
pub data Reaches : InvoiceState → InvoiceState → Type 0 where
  here : {s : InvoiceState} → Reaches s s
  along : {s t u : InvoiceState} → Arrow s t → Reaches t u → Reaches s u

allowed-Arrow : (s t : InvoiceState) → assert_transition_allowed s t ≡ ok tt → Arrow s t
unfolding assert_transition_allowed
allowed-Arrow s t h = grind (arith, finalize, pay, void_it, write_off)

Arrow-allowed : {s t : InvoiceState} → Arrow s t → assert_transition_allowed s t ≡ ok tt
unfolding assert_transition_allowed
Arrow-allowed finalize = refl
Arrow-allowed pay = refl
Arrow-allowed void_it = refl
Arrow-allowed write_off = refl

-- For any two states, `assert_transition_allowed` lets the transition through exactly when the
-- diagram has an arrow from the first to the second.
pub allowed_iff_Arrow : (s t : InvoiceState) → (assert_transition_allowed s t ≡ ok tt) ↔ Arrow s t
allowed_iff_Arrow s t = (allowed-Arrow s t, Arrow-allowed)

-- Only an open invoice can be paid.
pub allowed_paid : (s : InvoiceState) → assert_transition_allowed s paid ≡ ok tt → s ≡ open_
unfolding assert_transition_allowed
allowed_paid s h = ground arith

-- The exception for a transition that is not allowed.
abbrev pub refusal : InvoiceState → InvoiceState → Transition
refusal s t = record {
  from_state = value s;
  to_state = value t;
  reason =
      if in_states s terminal_states
      then some ("invoice is in terminal state '" ++ (value s ++ "'"))
      else none;
}

pub assert-refusal :
    (s t : InvoiceState)
    → assert_transition_allowed s t ≢ ok tt
    → assert_transition_allowed s t ≡ err (invalid_state_transition (refusal s t))
unfolding assert_transition_allowed
assert-refusal s t h = ground arith

-- A terminal state is left by no path of allowed transitions.
pub terminal-Reaches :
    (s t : InvoiceState) → in_states s terminal_states ≡ true → Reaches s t → s ≡ t
terminal-Reaches s t h here = refl
terminal-Reaches s t h (along finalize r) = cc
terminal-Reaches s t h (along pay r) = cc
terminal-Reaches s t h (along void_it r) = cc
terminal-Reaches s t h (along write_off r) = cc

pub not_open_refused :
    (s : InvoiceState)
    → s ≢ open_
    → assert_transition_allowed s paid ≡ err (invalid_state_transition (refusal s paid))
not_open_refused s h = assert-refusal s paid (λ e. h (allowed_paid s e))
