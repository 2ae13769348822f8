-- ===== src/Routers/Payments.antt =====
-- app/routers/payments.py: POST /invoices/{id}/pay.
use tenant_billing_service.Base.{ℕ, String, Bool, Option, none, some, str_eq, if◌then◌else◌}
use tenant_billing_service.Errors.{
  Result, ok, err, AppError, not_found, invalid_state_transition, idempotency_conflict,
  transition_message,
}
use tenant_billing_service.Model.Payment.{PaymentAttempt, PaymentStatus, succeeded, failed, pending}
use tenant_billing_service.Model.Tenant.{Business}
use tenant_billing_service.Session.{Session}
use tenant_billing_service.World.{World, Draws}
use tenant_billing_service.Payment.{process_payment}

-- A response with its status code, an HTTPException, or an exception that no handler catches, which
-- the framework answers with 500.
pub data Answer (A : Type 0) : Type 0 where
  respond : ℕ → A → Answer A
  http_exception : ℕ → String → Answer A
  uncaught : AppError → Answer A

-- `attempt.status` mapped to the status code
abbrev pub status_code : PaymentStatus → ℕ
status_code succeeded = 200
status_code failed = 402
status_code pending = 202

-- The `except` clauses of `pay_invoice`.
unfoldable pub answer_payment : Result (PaymentAttempt × Bool) → Answer PaymentAttempt
answer_payment (ok (attempt, is_cached)) = respond (status_code attempt.status) attempt
answer_payment (err (not_found resource resource_id)) = http_exception 404 "Invoice not found"
answer_payment (err (invalid_state_transition t)) = http_exception 422 (transition_message t)
answer_payment (err idempotency_conflict) =
    http_exception 409 "Idempotency key reused with different request body"
answer_payment (err e) = uncaught e

abbrev pub key_required : Answer PaymentAttempt
key_required = http_exception 422 "Idempotency-Key header is required"

abbrev pub pay_with_key :
    World → Draws → Business → ℕ → String → String → Session → Answer PaymentAttempt × Session
pay_with_key w d business invoice_id card_token key s =
    let (r, s') = process_payment w d business invoice_id card_token key s in (answer_payment r, s')

-- `if not idempotency_key`: the header is missing or empty.
unfoldable pub pay_invoice :
    World
    → Draws
    → Business
    → ℕ
    → String
    → Option String
    → Session
    → Answer PaymentAttempt × Session
pay_invoice w d business invoice_id card_token none s = (key_required, s)
pay_invoice w d business invoice_id card_token (some key) s =
    if str_eq key ""
    then (key_required, s)
    else pay_with_key w d business invoice_id card_token key s
