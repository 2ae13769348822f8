-- ===== src/Machine.antt =====
-- app/services/invoice_state.py: which transitions of an invoice are allowed.
pub mod Laws
use Prim.Native.String.{◌++◌}
use tenant_billing_service.Base.{String, Option, none, some, List, [], ◌∷◌, if◌then◌else◌}
use tenant_billing_service.Errors.{Result, ok, err, invalid_state_transition}
use tenant_billing_service.Model.Invoice.{
  InvoiceState, draft, open_, paid, void, uncollectible, value, in_states, terminal_states,
}

-- `ALLOWED_TRANSITIONS`
unfoldable pub allowed_transitions : InvoiceState → List InvoiceState
allowed_transitions draft = open_ ∷ []
allowed_transitions open_ = paid ∷ void ∷ uncollectible ∷ []
allowed_transitions paid = []
allowed_transitions void = []
allowed_transitions uncollectible = []

unfoldable pub assert_transition_allowed : InvoiceState → InvoiceState → Result (Unit {0})
unfolding allowed_transitions
assert_transition_allowed current target =
    if in_states current terminal_states
    then err (
        invalid_state_transition (record {
          from_state = value current;
          to_state = value target;
          reason = some ("invoice is in terminal state '" ++ (value current ++ "'"));
        }))
    else if in_states target (allowed_transitions current)
    then ok tt
    else err (
        invalid_state_transition
          (record { from_state = value current; to_state = value target; reason = none }))
