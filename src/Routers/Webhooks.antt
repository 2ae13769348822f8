-- ===== src/Routers/Webhooks.antt =====
-- app/routers/webhooks.py: webhook endpoints over HTTP.
use tenant_billing_service.Base.{ℕ, String, Bool, Option, none, some, List, map}
use tenant_billing_service.Errors.{Result, ok, err}
use tenant_billing_service.Model.Webhook.{WebhookEndpoint}
use tenant_billing_service.Model.Tenant.{Business}
use tenant_billing_service.Session.{Session, commit}
use tenant_billing_service.World.{Draws}
use tenant_billing_service.Endpoints.{create_endpoint, list_endpoints, deactivate_endpoint}
use tenant_billing_service.Routers.Payments.{Answer, respond, http_exception, uncaught}
use tenant_billing_service.Routers.Invoices.{and_commit}

-- app/schemas/webhook.py: the signing secret is shown at creation only.
pub record WebhookEndpointRead : Type 0 where
  pub id : ℕ
  pub business_id : ℕ
  pub url : String
  pub is_active : Bool
  pub created_at : ℕ

pub record WebhookEndpointCreated : Type 0 where
  pub endpoint : WebhookEndpointRead
  pub signing_secret : String

abbrev pub endpoint_read : WebhookEndpoint → WebhookEndpointRead
endpoint_read e = record {
  id = e.id;
  business_id = e.business_id;
  url = e.url;
  is_active = e.is_active;
  created_at = e.created_at;
}

unfoldable pub answer_endpoint : Result (WebhookEndpoint × String) → Answer WebhookEndpointCreated
answer_endpoint (ok (e, secret)) =
    respond 201 (record { endpoint = endpoint_read e; signing_secret = secret })
answer_endpoint (err e) = uncaught e

unfoldable pub post_endpoint :
    Draws → Business → String → String → Session → Answer WebhookEndpointCreated × Session
post_endpoint d business url secret =
    and_commit (create_endpoint d business url secret) answer_endpoint

abbrev pub answer_endpoints : Result (List WebhookEndpoint) → Answer (List WebhookEndpointRead)
answer_endpoints (ok endpoints) = respond 200 (map endpoint_read endpoints)
answer_endpoints (err e) = uncaught e

unfoldable pub read_endpoints : Business → Session → Answer (List WebhookEndpointRead) × Session
read_endpoints business s = let (r, s') = list_endpoints business s in (answer_endpoints r, s')

-- With no row there is no commit.
abbrev pub finish_deletion : Result (Option WebhookEndpoint) → Session → Answer (Unit {0}) × Session
finish_deletion (ok none) s = (http_exception 404 "Webhook endpoint not found", s)
finish_deletion (ok (some e)) s = (respond 204 tt, (commit s).1)
finish_deletion (err e) s = (uncaught e, s)

unfoldable pub delete_endpoint : Business → ℕ → Session → Answer (Unit {0}) × Session
delete_endpoint business endpoint_id s =
    let (r, s') = deactivate_endpoint business endpoint_id s in finish_deletion r s'
