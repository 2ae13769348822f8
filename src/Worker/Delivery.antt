-- ===== src/Worker/Delivery.antt =====
-- `_deliver` of app/workers/webhook_worker.py: what one POST makes of a row of the outbox.
use Prim.Native.String.{◌++◌}
use Prim.Native.Nat.{min}
use tenant_billing_service.Base.{
  ℕ, zero, suc, ◌+◌, ◌-◌, String, Bool, ◌&&◌, Option, none, some, List, [], ◌∷◌, ◌==◌, leb, ltb,
  find_row, length, if◌then◌else◌,
}
use tenant_billing_service.Model.Webhook.{WebhookDelivery, WebhookDeliveryStatus, WebhookEndpoint}

abbrev pub max_attempts : ℕ
max_attempts = 5

abbrev pub backoff_seconds : List ℕ
backoff_seconds = 1 ∷ 5 ∷ 25 ∷ 125 ∷ 625 ∷ []

-- How the POST ends: with a response, with a timeout, or with another exception and its text. A
-- response comes with the text of its status code.
pub data PostOutcome : Type 0 where
  responded : ℕ → String → PostOutcome
  timed_out : PostOutcome
  excepted : String → PostOutcome

-- `error_msg`, or none after a success
unfoldable pub error_of : PostOutcome → Option String
error_of (responded status_code status_text) =
    if leb 200 status_code && ltb status_code 300 then none else some ("HTTP " ++ status_text)
error_of timed_out = some "delivery timeout"
error_of (excepted message) = some message

-- A list indexed within its bounds.
abbrev pub get_or : List ℕ → ℕ → ℕ → ℕ
get_or [] i d = d
get_or (x ∷ xs) zero d = x
get_or (x ∷ xs) (suc i) d = get_or xs i d

-- `BACKOFF_SECONDS[min(delivery.attempts, len(BACKOFF_SECONDS) - 1)]`; the index is in range.
unfoldable pub backoff : ℕ → ℕ
backoff attempts = get_or backoff_seconds (min attempts (length backoff_seconds - 1)) 0

-- `attempts` is the number with this delivery.
abbrev pub after_failure : ℕ → String → ℕ → WebhookDelivery → WebhookDelivery
after_failure now message attempts row =
    if leb max_attempts attempts
    then record row {
      attempts = attempts;
      last_error = some message;
      status = WebhookDeliveryStatus.exhausted;
    }
    else record row {
      attempts = attempts;
      last_error = some message;
      next_attempt_at = some (now + backoff attempts);
    }

abbrev pub after_post : ℕ → Option String → WebhookDelivery → WebhookDelivery
after_post now none row = record row {
  attempts = row.attempts + 1;
  status = WebhookDeliveryStatus.delivered;
  delivered_at = some now;
}
after_post now (some message) row = after_failure now message (row.attempts + 1) row

abbrev pub has_endpoint_id : ℕ → WebhookEndpoint → Bool
has_endpoint_id id endpoint = endpoint.id == id

abbrev pub deliver_to :
    (WebhookEndpoint → WebhookDelivery → PostOutcome)
    → ℕ
    → Option WebhookEndpoint
    → WebhookDelivery
    → WebhookDelivery
deliver_to answer now none row = record row {
  status = WebhookDeliveryStatus.exhausted;
  last_error = some "endpoint not found";
}
deliver_to answer now (some endpoint) row = after_post now (error_of (answer endpoint row)) row

-- `answer` is what the endpoint makes of the POST of a row, and `now` the clock after it. The id is
-- the endpoints' primary key, so that one row has it at most.
unfoldable pub deliver :
    (WebhookEndpoint → WebhookDelivery → PostOutcome)
    → ℕ
    → List WebhookEndpoint
    → WebhookDelivery
    → WebhookDelivery
deliver answer now endpoints row =
    deliver_to answer now (find_row (has_endpoint_id row.webhook_endpoint_id) endpoints) row
