-- ===== src/App/Safety.antt =====
-- Tenants are kept apart by the application as a whole, over any sequence of requests.
use mathlib.Core.Path.{sym}
use tenant_billing_service.Base.{
  ℕ, ◌≡◌, refl, ◌∙◌, String, false, Option, none, some, List, [], ◌∷◌, ◌==◌, arith, All, select,
}
use tenant_billing_service.Auth.Texts.{strip}
use tenant_billing_service.Model.Tenant.{Business, ApiKey}
use tenant_billing_service.Model.Db.{Db}
use tenant_billing_service.Session.{open_session}
use tenant_billing_service.World.{World, Draws}
use tenant_billing_service.Auth.{
  Credentials, accepted, is_key, hash_api_key, business_of, get_current_business,
}
use tenant_billing_service.App.{Request, handle}
use tenant_billing_service.App.Owners.{Untouched, Untouched-refl, IsKeyed}
use tenant_billing_service.App.Isolation.{
  transition-Untouched, create_invoice-Untouched, create_customer-Untouched,
  create_endpoint-Untouched, delete_endpoint-Untouched,
}
use tenant_billing_service.App.Keys.{
  transition-IsKeyed, create_invoice-IsKeyed, create_customer-IsKeyed, create_endpoint-IsKeyed,
  delete_endpoint-IsKeyed,
}
use tenant_billing_service.App.Payments.{process_payment-Untouched, process_payment-IsKeyed}
use tenant_billing_service.App.Serve.{handle-holds}

-- A request with what is drawn for it, and the world that it meets.
pub record Incoming : Type 0 where
  pub world : World
  pub draws : Draws
  pub secret : String
  pub credentials : Option Credentials
  pub request : Request

-- Each request runs in a session of its own, and leaves what it commits.
abbrev pub handle_one : String → Incoming → Db → Db
handle_one app_name r db =
    (handle app_name r.world r.draws r.secret r.credentials r.request (open_session db)).1.committed

abbrev pub handle_all : String → List Incoming → Db → Db
handle_all app_name [] db = db
handle_all app_name (r ∷ rs) db = handle_all app_name rs (handle_one app_name r db)

-- The request does not bring the credentials of the tenant.
abbrev pub IsForeign : ℕ → Db → Incoming → Type 0
IsForeign o db r =
    (business : Business)
    → get_current_business r.world r.credentials db ≡ accepted business
    → (business.id == o) ≡ false

module _ (app_name : String) (db : Db) (keyed : IsKeyed db) (r : Incoming) where
  -- If invoices and endpoints have primary keys, then they have after any request.
  pub handle-IsKeyed : IsKeyed (handle_one app_name r db)
  handle-IsKeyed =
      handle-holds app_name r.world r.draws r.secret db IsKeyed keyed r.credentials r.request
        (λ business _. record {
          customer = create_customer-IsKeyed business db keyed r.draws;
          invoice = λ raw payload _. create_invoice-IsKeyed business db keyed r.draws payload;
          transition = transition-IsKeyed business db keyed r.draws;
          payment =
              λ i token key. process_payment-IsKeyed business r.world r.draws i token key db keyed;
          endpoint = λ url. create_endpoint-IsKeyed business db keyed r.draws url r.secret;
          deletion = delete_endpoint-IsKeyed business db keyed;
        })

  handle-isolates : (o : ℕ) → IsForeign o db r → Untouched o db (handle_one app_name r db)
  handle-isolates o foreign =
      handle-holds app_name r.world r.draws r.secret db (Untouched o db) (Untouched-refl o db)
        r.credentials r.request
        (λ business access.
          let other = foreign business access in
          record {
            customer = create_customer-Untouched o business other db keyed r.draws;
            invoice =
                λ raw payload _. create_invoice-Untouched o business other db keyed r.draws payload;
            transition = transition-Untouched o business other db keyed r.draws;
            payment = λ i token key.
                process_payment-Untouched business r.world r.draws i token key db keyed o other;
            endpoint =
                λ url. create_endpoint-Untouched o business other db keyed r.draws url r.secret;
            deletion = delete_endpoint-Untouched o business other db keyed r.draws;
          })

business_of-same :
    (db db' : Db) (keys : List ApiKey)
    → db'.businesses ≡ db.businesses
    → business_of db' keys ≡ business_of db keys
business_of-same db db' [] b = refl
business_of-same db db' (k ∷ []) b = rw b refl
business_of-same db db' (x ∷ y ∷ keys) b = refl

-- Who a request comes from depends on the tables of tenants and keys alone.
access-same :
    (w : World) (credentials : Option Credentials) (db db' : Db)
    → db'.businesses ≡ db.businesses
    → db'.api_keys ≡ db.api_keys
    → get_current_business w credentials db' ≡ get_current_business w credentials db
unfolding get_current_business
access-same w none db db' b k = refl
access-same w (some c) db db' b k = rw k (
    ground (
      arith,
      business_of-same db db' (select (is_key (hash_api_key w (strip c.credentials))) db.api_keys)
          b,
    ))

Untouched-trans : (o : ℕ) (x y z : Db) → Untouched o x y → Untouched o y z → Untouched o x z
Untouched-trans o x y z u v = record {
  businesses = v.businesses ∙ u.businesses;
  api_keys = v.api_keys ∙ u.api_keys;
  customers = v.customers ∙ u.customers;
  invoices = v.invoices ∙ u.invoices;
  webhook_endpoints = v.webhook_endpoints ∙ u.webhook_endpoints;
}

IsForeign-later :
    (o : ℕ) (db db' : Db) (rs : List Incoming)
    → Untouched o db db'
    → All (IsForeign o db) rs
    → All (IsForeign o db') rs
IsForeign-later o db db' [] u h = tt
IsForeign-later o db db' (r ∷ rs) u (first, h) = (
  λ business access.
      first business
        (sym (access-same r.world r.credentials db db' u.businesses u.api_keys) ∙ access),
  IsForeign-later o db db' rs u h,
)

-- If invoices and endpoints have primary keys, and none of the requests brings the credentials of a
-- tenant, then after all of them, whatever they ask for and commit, the customers, invoices and
-- webhook endpoints of that tenant are as they were, and so are all tenants and API keys.
pub handle_all-isolates :
    (app_name : String) (o : ℕ) (rs : List Incoming) (db : Db)
    → IsKeyed db
    → All (IsForeign o db) rs
    → Untouched o db (handle_all app_name rs db)
handle_all-isolates app_name o [] db keyed h = Untouched-refl o db
handle_all-isolates app_name o (r ∷ rs) db keyed (foreign, h) =
    let db' = handle_one app_name r db in
    let u = handle-isolates app_name db keyed r o foreign in
    Untouched-trans o db db' (handle_all app_name (r ∷ rs) db) u (
      handle_all-isolates app_name o rs db' (handle-IsKeyed app_name db keyed r)
        (IsForeign-later o db db' rs u h))
