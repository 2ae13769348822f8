-- ===== src/Payment/Promises.antt =====
-- What a payment promises for an answer of the PSP: the code that is stored, and the outbox rows.
use tenant_billing_service.Base.{
  ℕ, ◌≡◌, ◌≢◌, refl, ap, inl, inr, eq_iff, Bool-cases, ◌⊎◌, true, false, String, some, none, Option,
  List, leb, str_eq, All,
}
use tenant_billing_service.Model.Webhook.{WebhookDelivery, Json, text, null}
use tenant_billing_service.Model.Db.{Db}
use tenant_billing_service.World.{PspBody, HttpOutcome, timeout_exception, request_error, response}
use tenant_billing_service.Psp.{
  PspError, psp_timeout, psp_network_error, read_outcome, failed_with, or_else, is_succeeded,
  failure_code_from_psp_error,
}
use tenant_billing_service.Outbox.{new_deliveries, active_endpoints}
use tenant_billing_service.Outbox.Laws.{
  IsNew, recipients, ids_of, new_deliveries-recipients, new_deliveries-IsNew,
}
use tenant_billing_service.Payment.Resolve.{optional_text}

-- A text of a JSON object, or null.
abbrev pub json_text : Option String → Json
json_text none = null
json_text (some s) = text s

-- New rows of one event, one for each active endpoint of a business, in their order.
abbrev pub FansOut : ℕ → ℕ → String → List (String × Json) → Db → List WebhookDelivery → Type 0
FansOut business_id now event_type payload db rows =
    (recipients rows ≡ ids_of (active_endpoints business_id db))
    × All (IsNew now event_type payload) rows

pub optional-json : (o : Option String) → optional_text o ≡ json_text o
optional-json none = refl
optional-json (some s) = refl

pub fans_out :
    (ids : ℕ → ℕ) (business_id now : ℕ) (event_type : String)
    (payload payload' : List (String × Json)) (db : Db)
    → payload ≡ payload'
    → FansOut business_id now event_type payload' db
        (new_deliveries ids 0 now event_type payload (active_endpoints business_id db))
fans_out ids business_id now event_type payload payload' db e = rw (← e) (
  new_deliveries-recipients ids now event_type payload 0 (active_endpoints business_id db),
  new_deliveries-IsNew ids now event_type payload 0 (active_endpoints business_id db),
)

-- The code of a body: "code" if it has one that is not empty, and else "failure_code".
abbrev pub HasCode : PspBody → Option String → Type 0
HasCode body code =
    ((c : String) × (body.code ≡ some c) × (str_eq c "" ≡ false) × (code ≡ some c))
    ⊎ (((body.code ≡ none) ⊎ (body.code ≡ some "")) × (code ≡ body.failure_code))

pub or_else-code :
    (body : PspBody) (code : Option String)
    → HasCode body code
    → or_else body.code body.failure_code ≡ code
or_else-code body code (inl (c, has, full, e)) = rw (has, full, e) refl
or_else-code body code (inr (inl has, e)) = rw (has, e) refl
or_else-code body code (inr (inr has, e)) = rw (has, e) refl

pub not_succeeded :
    (status : Option String) → status ≢ some "succeeded" → is_succeeded status ≡ false
not_succeeded none other = refl
not_succeeded (some s) other = elim (Bool-cases (str_eq s "succeeded")) [
  | inl same ↦ absurd (other (ap some ((eq_iff s "succeeded").0 same)))
  | inr no_ ↦ no_
]

-- An answer of the PSP client that says nothing of the charge, and the code that is stored for it.
abbrev pub Unclear : HttpOutcome → String → Type 0
Unclear timeout_exception code = code ≡ "psp_timeout"
Unclear request_error code = code ≡ "psp_unavailable"
Unclear (response status_code body) code = (leb 400 status_code ≡ true) × (code ≡ "psp_unavailable")

pub read-Unclear :
    (o : HttpOutcome) (code : String)
    → Unclear o code
    → (e : PspError) × (read_outcome o ≡ failed_with e) × (failure_code_from_psp_error e ≡ code)
unfolding read_outcome failure_code_from_psp_error
read-Unclear timeout_exception code h = (psp_timeout, refl, cc h)
read-Unclear request_error code h = (psp_network_error, refl, cc h)
read-Unclear (response status_code body) code (bad, h) = (psp_network_error, rw bad refl, cc h)
