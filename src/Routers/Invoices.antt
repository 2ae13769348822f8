-- ===== src/Routers/Invoices.antt =====
-- app/routers/invoices.py: creation, lookup and transitions of invoices over HTTP.
use Prim.Native.String.{◌++◌}
use tenant_billing_service.Base.{
  ℕ, String, Bool, false, not, ◌&&◌, Option, none, some, List, [], ◌∷◌, map, any, str_eq,
  if◌then◌else◌,
}
use tenant_billing_service.Errors.{
  Result, ok, err, not_found, invalid_state_transition, transition_message,
}
use tenant_billing_service.Model.Invoice.{
  InvoiceState, draft, open_, paid, void, uncollectible, value,
}
use tenant_billing_service.Model.Tenant.{Business}
use tenant_billing_service.Session.{Session, Action, commit, pure, ◌>>=◌, ◌>>◌}
use tenant_billing_service.World.{Draws}
use tenant_billing_service.Invoices.{
  InvoiceCreate, LoadedInvoice, create_invoice, get_invoice, transition_invoice_state,
}
use tenant_billing_service.Invoices.Listing.{list_invoices}
use tenant_billing_service.Routers.Payments.{Answer, respond, http_exception, uncaught}

-- `str(e)` of a NotFoundError with no identifier
abbrev pub not_found_message : String → String
not_found_message resource = resource ++ " not found"

unfoldable pub answer_creation : Result LoadedInvoice → Answer LoadedInvoice
answer_creation (ok found) = respond 201 found
answer_creation (err (not_found resource resource_id)) =
    http_exception 404 (not_found_message resource)
answer_creation (err e) = uncaught e

unfoldable pub answer_lookup : Result LoadedInvoice → Answer LoadedInvoice
answer_lookup (ok found) = respond 200 found
answer_lookup (err (not_found resource resource_id)) = http_exception 404 "Invoice not found"
answer_lookup (err e) = uncaught e

unfoldable pub answer_transition : Result LoadedInvoice → Answer LoadedInvoice
answer_transition (ok found) = respond 200 found
answer_transition (err (not_found resource resource_id)) = http_exception 404 "Invoice not found"
answer_transition (err (invalid_state_transition t)) = http_exception 422 (transition_message t)
answer_transition (err e) = uncaught e

-- A service call and `db.commit()`, whose result `answer` translates.
abbrev pub and_commit :
    {A B : Type 0} → Action A → (Result A → Answer B) → Session → Answer B × Session
and_commit m answer s = let (r, s') = (m >>= λ found. commit >> pure found) s in (answer r, s')

unfoldable pub post_invoice :
    Draws → Business → InvoiceCreate → Session → Answer LoadedInvoice × Session
post_invoice d business payload = and_commit (create_invoice d business payload) answer_creation

unfoldable pub read_invoice : Business → ℕ → Session → Answer LoadedInvoice × Session
read_invoice business invoice_id s =
    let (r, s') = get_invoice business invoice_id s in (answer_lookup r, s')

-- `_transition`
unfoldable pub post_transition :
    Draws → Business → ℕ → InvoiceState → Session → Answer LoadedInvoice × Session
post_transition d business invoice_id target_state =
    and_commit (transition_invoice_state d business invoice_id target_state) answer_transition

unfoldable pub finalize_invoice : Draws → Business → ℕ → Session → Answer LoadedInvoice × Session
finalize_invoice d business invoice_id = post_transition d business invoice_id open_

unfoldable pub void_invoice : Draws → Business → ℕ → Session → Answer LoadedInvoice × Session
void_invoice d business invoice_id = post_transition d business invoice_id void

unfoldable pub mark_uncollectible : Draws → Business → ℕ → Session → Answer LoadedInvoice × Session
mark_uncollectible d business invoice_id = post_transition d business invoice_id uncollectible

abbrev pub state_names : List String
state_names = map value (draft ∷ open_ ∷ paid ∷ void ∷ uncollectible ∷ [])

-- `if state and state not in [s.value for s in InvoiceState]`
abbrev pub is_bad_filter : Option String → Bool
is_bad_filter none = false
is_bad_filter (some state) = not (str_eq state "") && not (any (str_eq state) state_names)

abbrev pub bad_filter_message : Option String → String
bad_filter_message none = ""
bad_filter_message (some state) = "Invalid state: " ++ state

abbrev pub answer_page : {A : Type 0} → Result A → Answer A
answer_page (ok found) = respond 200 found
answer_page (err e) = uncaught e

unfoldable pub read_invoices :
    Business → Option String → ℕ → ℕ → Session → Answer (List LoadedInvoice × ℕ) × Session
read_invoices business state skip limit s =
    if is_bad_filter state then (http_exception 422 (bad_filter_message state), s) else (
      answer_page (list_invoices business state skip limit s).0,
      (list_invoices business state skip limit s).1,
    )
