-- ===== src/Worker/Request.antt =====
-- `_deliver` of app/workers/webhook_worker.py: the signed request that a row is sent in.
pub mod Laws
use tenant_billing_service.Base.{
  ℕ, String, Bool, false, Option, none, some, List, [], ◌∷◌, find_row, length,
}
use tenant_billing_service.Model.Webhook.{WebhookDelivery, WebhookEndpoint}
use tenant_billing_service.Model.Db.{Db}
use tenant_billing_service.World.{World}
use tenant_billing_service.Signing.{sign_payload}
use tenant_billing_service.Signing.Decimal.{pos}
use tenant_billing_service.Signing.Numerals.{str_int}
use tenant_billing_service.Worker.{claim, poll}
use tenant_billing_service.Worker.Delivery.{PostOutcome, has_endpoint_id}

-- The URL, the body, and the values of the headers, by their names.
pub record WebhookRequest : Type 0 where
  pub url : String
  pub body : String
  pub content_type : String
  pub x_webhook_timestamp : String
  pub x_webhook_signature : String
  pub x_webhook_event : String

-- `signed_at` is the clock when the payload is signed.
unfoldable pub request_for : World → ℕ → WebhookEndpoint → WebhookDelivery → WebhookRequest
request_for w signed_at endpoint row =
    let body = w.json_object row.payload in
    let (signature_header, timestamp) =
      sign_payload w (pos signed_at) endpoint.signing_secret body none in
    record {
      url = endpoint.url;
      body = body;
      content_type = "application/json";
      x_webhook_timestamp = str_int timestamp;
      x_webhook_signature = signature_header;
      x_webhook_event = row.event_type;
    }

-- A poll on a network that answers requests; `signed_at` says when each row is signed.
abbrev pub answer_by :
    World
    → (WebhookRequest → PostOutcome)
    → (WebhookDelivery → ℕ)
    → WebhookEndpoint
    → WebhookDelivery
    → PostOutcome
answer_by w network signed_at endpoint row = network (request_for w (signed_at row) endpoint row)

abbrev pub send_to :
    World
    → ℕ
    → WebhookDelivery
    → Option WebhookEndpoint
    → List (WebhookEndpoint × WebhookRequest)
    → List (WebhookEndpoint × WebhookRequest)
send_to w t row none rest = rest
send_to w t row (some endpoint) rest = (endpoint, request_for w t endpoint row) ∷ rest

-- What is sent for some rows, each with the endpoint it goes to; a row with no endpoint sends
-- nothing.
abbrev pub requests_of :
    World
    → (WebhookDelivery → ℕ)
    → List WebhookEndpoint
    → List WebhookDelivery
    → List (WebhookEndpoint × WebhookRequest)
requests_of w signed_at endpoints [] = []
requests_of w signed_at endpoints (row ∷ rows) =
    let rest = requests_of w signed_at endpoints rows in
    send_to w (signed_at row) row (find_row (has_endpoint_id row.webhook_endpoint_id) endpoints)
      rest

-- What one poll sends.
unfoldable pub poll_requests :
    World
    → (WebhookDelivery → ℕ)
    → ℕ
    → (WebhookDelivery → Bool)
    → Db
    → List (WebhookEndpoint × WebhookRequest)
poll_requests w signed_at now locked db =
    requests_of w signed_at db.webhook_endpoints (claim now locked db)
