-- ===== src/Model/Webhook.antt =====
-- app/models/webhook.py: webhook endpoints and the outbox of deliveries.
use tenant_billing_service.Base.{ℕ, String, Bool, Option, List}

pub data WebhookDeliveryStatus : Type 0 where
  pending delivered exhausted : WebhookDeliveryStatus

-- The values that the services put into a JSON payload; `uuid` is the text of an identifier.
pub data Json : Type 0 where
  null : Json
  text : String → Json
  uuid : ℕ → Json
  int : ℕ → Json

pub record WebhookEndpoint : Type 0 where
  pub id : ℕ
  pub business_id : ℕ
  pub url : String
  pub signing_secret : String
  pub is_active : Bool
  pub created_at : ℕ

pub record WebhookDelivery : Type 0 where
  pub id : ℕ
  pub webhook_endpoint_id : ℕ
  pub event_type : String
  pub payload : List (String × Json)
  pub status : WebhookDeliveryStatus
  pub attempts : ℕ
  pub next_attempt_at : Option ℕ
  pub last_error : Option String
  pub created_at : ℕ
  pub delivered_at : Option ℕ
