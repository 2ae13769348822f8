-- ===== src/Endpoints.antt =====
-- app/services/webhook_service.py: registration, listing and deactivation of webhook endpoints.
pub mod Laws
use tenant_billing_service.Base.{
  ℕ, String, Bool, true, false, Option, none, some, List, [], ◌∷◌, ◌++◌, ◌&&◌, ◌==◌, leb, any,
  select, update_where, if◌then◌else◌,
}
use tenant_billing_service.Errors.{ok, err, database, integrity, data_error, webhook_endpoints_pkey}
use tenant_billing_service.Model.Webhook.{WebhookEndpoint}
use tenant_billing_service.Model.Tenant.{Business}
use tenant_billing_service.Model.Db.{Db}
use tenant_billing_service.Session.{
  Session, Action, pure, raise, lift, query, write, scalar_one_or_none, ◌>>=◌, ◌>>◌,
}
use tenant_billing_service.World.{Draws}
use tenant_billing_service.Outbox.{active_endpoints}
use Prim.Native.String.{count as chars}

abbrev pub has_endpoint_id : ℕ → WebhookEndpoint → Bool
has_endpoint_id id endpoint = endpoint.id == id

abbrev pub new_endpoint : Draws → Business → String → String → WebhookEndpoint
new_endpoint d business url signing_secret = record {
  id = d.uuid 0;
  business_id = business.id;
  url = url;
  signing_secret = signing_secret;
  is_active = true;
  created_at = d.clock 0;
}

-- The flush; the URL has a column of 2000 characters.
unfoldable pub insert_endpoint : WebhookEndpoint → Action (Unit {0})
insert_endpoint endpoint s =
    if leb (chars endpoint.url) 2000
    then (if any (has_endpoint_id endpoint.id) s.working.webhook_endpoints
        then raise (database (integrity webhook_endpoints_pkey)) s
        else write (λ db. record db { webhook_endpoints = db.webhook_endpoints ++ endpoint ∷ [] })
            s)
    else raise (database data_error) s

-- `secret` is what `secrets.token_urlsafe(32)` draws.
unfoldable pub create_endpoint :
    Draws → Business → String → String → Action (WebhookEndpoint × String)
create_endpoint d business url secret = do
  let endpoint = new_endpoint d business url secret
  insert_endpoint endpoint
  pure (endpoint, secret)

unfoldable pub list_endpoints : Business → Action (List WebhookEndpoint)
list_endpoints business = query (active_endpoints business.id)

abbrev pub endpoint_of : ℕ → ℕ → WebhookEndpoint → Bool
endpoint_of business_id endpoint_id endpoint =
    endpoint.id == endpoint_id && endpoint.business_id == business_id

unfoldable pub find_endpoints : ℕ → ℕ → Db → List WebhookEndpoint
find_endpoints business_id endpoint_id db =
    select (endpoint_of business_id endpoint_id) db.webhook_endpoints

abbrev pub switched_off : WebhookEndpoint → WebhookEndpoint
switched_off endpoint = record endpoint { is_active = false }

-- The UPDATE names the row by its primary key.
abbrev pub deactivate_found : Option WebhookEndpoint → Action (Option WebhookEndpoint)
deactivate_found none = pure none
deactivate_found (some endpoint) = do
  write (λ db. record db {
    webhook_endpoints =
        update_where (has_endpoint_id endpoint.id) switched_off db.webhook_endpoints;
  })
  pure (some (switched_off endpoint))

unfoldable pub deactivate_endpoint : Business → ℕ → Action (Option WebhookEndpoint)
deactivate_endpoint business endpoint_id = do
  rows ← query (find_endpoints business.id endpoint_id)
  endpoint ← lift (scalar_one_or_none rows)
  deactivate_found endpoint
