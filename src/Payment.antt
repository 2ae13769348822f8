-- ===== src/Payment.antt =====
-- `process_payment` of app/services/payment_service.py: the pieces between its commits, composed.
pub mod Attempts
pub mod Start
pub mod Resolve
pub mod Insert
pub mod Replay
pub mod Results
pub mod Idempotent
pub mod Effects
pub mod Outcomes
pub mod Composed
pub mod Durable
pub mod Repeats
pub mod Whole
pub mod Promises
pub mod Answers
pub mod Settled
pub mod Settlement
use tenant_billing_service.Base.{ℕ, String, Bool, true, false, some}
use tenant_billing_service.Model.Payment.{PaymentAttempt}
use tenant_billing_service.Model.Tenant.{Business}
use tenant_billing_service.Session.{Action, PspRequest, pure, ◌>>=◌}
use tenant_billing_service.World.{World, Draws}
use tenant_billing_service.Psp.{charge}
use tenant_billing_service.Payment.Start.{Started, cached, started, start_payment}
use tenant_billing_service.Payment.Resolve.{resolve_payment}

abbrev pub request_of : PaymentAttempt → PspRequest
request_of attempt = record {
  card_token = attempt.card_token;
  amount_cents = attempt.amount_cents;
  idempotency_key = some attempt.idempotency_key;
}

-- Steps 3 and 4, for an attempt that step 2 has committed.
abbrev pub finish_payment : World → Draws → Business → ℕ → Started → Action (PaymentAttempt × Bool)
finish_payment w d business invoice_id (cached attempt) = pure (attempt, true)
finish_payment w d business invoice_id (started attempt invoice) = do
  outcome ← charge w (request_of attempt)
  resolved ← resolve_payment w d business invoice_id invoice attempt outcome
  pure (resolved, false)

unfoldable pub process_payment :
    World → Draws → Business → ℕ → String → String → Action (PaymentAttempt × Bool)
process_payment w d business invoice_id card_token idempotency_key = do
  begun ← start_payment w d business invoice_id card_token idempotency_key
  finish_payment w d business invoice_id begun
