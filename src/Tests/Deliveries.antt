-- ===== src/Tests/Deliveries.antt =====
-- The webhook worker on a small outbox.
use tenant_billing_service.Base.{sort_by, insert_by, ◌≡◌, refl, false, some, [], ◌∷◌}
use tenant_billing_service.Model.Webhook.{WebhookDelivery, WebhookEndpoint}
use tenant_billing_service.Model.Db.{Db}
use tenant_billing_service.Outbox.{new_delivery}
use tenant_billing_service.Worker.{claim}
use tenant_billing_service.Worker.Delivery.{PostOutcome, responded, error_of, deliver}
use tenant_billing_service.Worker.Retry.{deliver-failed}
use tenant_billing_service.Tests.World.{endpoint, start_db}

abbrev row : WebhookDelivery
row = new_delivery 1 0 "invoice.paid" [] endpoint

abbrev tried : WebhookDelivery
tried = record row { attempts = 3; last_error = some "HTTP 500"; next_attempt_at = some 200 }

abbrev outbox : Db
outbox = record start_db {
  webhook_deliveries =
      record row { id = 2; next_attempt_at = some 60 } ∷ row ∷ record tried { id = 3 } ∷ [];
}

abbrev broken : WebhookEndpoint → WebhookDelivery → PostOutcome
broken e d = responded 500 "500"

deliver-failed_example :
    deliver broken 100 (endpoint ∷ []) row
    ≡ record row { attempts = 1; last_error = some "HTTP 500"; next_attempt_at = some 105 }
unfolding error_of
deliver-failed_example = deliver-failed broken 100 (endpoint ∷ []) row endpoint "HTTP 500" refl refl

claimed :
    claim 100 (λ _. false) outbox ≡ row ∷ record row { id = 2; next_attempt_at = some 60 } ∷ []
unfolding claim sort_by insert_by
claimed = refl
