-- ===== src/Outbox.antt =====
-- `enqueue_event` of app/services/webhook_service.py: one outbox row for each active endpoint of
-- the business, written in the caller's transaction.
pub mod Laws
use tenant_billing_service.Base.{
  ℕ, suc, String, Bool, ◌&&◌, none, some, List, [], ◌∷◌, ◌++◌, ◌==◌, select,
}
use tenant_billing_service.Model.Webhook.{
  Json, WebhookEndpoint, WebhookDelivery, WebhookDeliveryStatus,
}
use tenant_billing_service.Model.Db.{Db}
use tenant_billing_service.Session.{Action, query, write, ◌>>=◌}

abbrev pub active_endpoint_of : ℕ → WebhookEndpoint → Bool
active_endpoint_of business_id endpoint = endpoint.business_id == business_id && endpoint.is_active

unfoldable pub active_endpoints : ℕ → Db → List WebhookEndpoint
active_endpoints business_id db = select (active_endpoint_of business_id) db.webhook_endpoints

abbrev pub new_delivery : ℕ → ℕ → String → List (String × Json) → WebhookEndpoint → WebhookDelivery
new_delivery id now event_type payload endpoint = record {
  id = id;
  webhook_endpoint_id = endpoint.id;
  event_type = event_type;
  payload = payload;
  status = WebhookDeliveryStatus.pending;
  attempts = 0;
  next_attempt_at = some now;
  last_error = none;
  created_at = now;
  delivered_at = none;
}

-- The rows of the loop; the n-th takes the n-th identifier.
unfoldable pub new_deliveries :
    (ℕ → ℕ) → ℕ → ℕ → String → List (String × Json) → List WebhookEndpoint → List WebhookDelivery
new_deliveries ids n now event_type payload [] = []
new_deliveries ids n now event_type payload (endpoint ∷ endpoints) =
    new_delivery (ids n) now event_type payload endpoint
    ∷ new_deliveries ids (suc n) now event_type payload endpoints

unfoldable pub enqueue_event : (ℕ → ℕ) → ℕ → ℕ → String → List (String × Json) → Action (Unit {0})
unfolding active_endpoints new_deliveries
enqueue_event ids now business_id event_type payload = do
  endpoints ← query (active_endpoints business_id)
  write (λ db. record db {
    webhook_deliveries =
        db.webhook_deliveries ++ new_deliveries ids 0 now event_type payload endpoints;
  })
