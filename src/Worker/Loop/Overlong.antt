-- ===== src/Worker/Loop/Overlong.antt =====
-- A failure whose message is longer than the column `last_error`.
use tenant_billing_service.Base.{Bool, false, not, Option, none, some, List, find_row}
use tenant_billing_service.Model.Webhook.{WebhookDelivery, WebhookEndpoint}
use tenant_billing_service.Model.Db.{Db}
use tenant_billing_service.Payment.Attempts.{fits_text}
use tenant_billing_service.Worker.Delivery.{PostOutcome, error_of, has_endpoint_id}
use tenant_billing_service.Worker.Runs.{Poll}

-- The endpoint is there, and the delivery fails with a message of more than 2000 characters.
abbrev is_overlong_at :
    (WebhookEndpoint → WebhookDelivery → PostOutcome)
    → Option WebhookEndpoint
    → WebhookDelivery
    → Bool
is_overlong_at answer none row = false
is_overlong_at answer (some endpoint) row = not (fits_text 2000 (error_of (answer endpoint row)))

abbrev pub is_overlong : Poll → List WebhookEndpoint → WebhookDelivery → Bool
is_overlong p endpoints row =
    is_overlong_at p.answer (find_row (has_endpoint_id row.webhook_endpoint_id) endpoints) row
