-- ===== src/Tests/Requests.antt =====
-- Requests to the application: bodies that are let through, and tenants beside each other.
use mathlib.Core.Path.{sym, ◌∙◌}
use tenant_billing_service.Base.{
  ◌≡◌, refl, true, false, none, some, List, [], ◌∷◌, arith, All, ◌==◌, ◌↔◌, ◌≢◌,
}
use tenant_billing_service.Model.Tenant.{ApiKey, Business}
use tenant_billing_service.Model.Db.{Db}
use tenant_billing_service.Session.{open_session}
use tenant_billing_service.Auth.Texts.{strip, lstrip, rstrip}
use tenant_billing_service.Auth.{hash_api_key, get_current_business, hash_api_key, accepted}
use tenant_billing_service.Auth.Texts.{strip, lstrip, rstrip, is_bearer}
use tenant_billing_service.Signing.Decimal.{ℤ, pos, negsuc}
use tenant_billing_service.Invoices.{InvoiceCreate}
use tenant_billing_service.Schemas.{
  validate_invoice, validate_line_items, validate_line_item, validate_page,
}
use tenant_billing_service.Schemas.Laws.{IsInBounds, raw_invoice, validate_invoice_iff}
use tenant_billing_service.Routers.Payments.{http_exception}
use tenant_billing_service.App.{
  Request, of_tenant, customers_post, invoice_pay, invoice_void, endpoint_delete, answered, handle,
}
use tenant_billing_service.App.Owners.{Untouched, IsKeyed}
use tenant_billing_service.App.Refusals.{handle-refused}
use tenant_billing_service.App.Safety.{Incoming, handle_all, handle_all-isolates}
use tenant_billing_service.Tests.World.{small_world, draws_from, acme, globex, start_db}

abbrev order : InvoiceCreate
order = record {
  customer_id = 10;
  due_date = none;
  line_items = record { description = "seats"; quantity = 3; unit_amount_cents = 500 } ∷ [];
}

in_bounds : All IsInBounds order.line_items
in_bounds =
    (record { described = omega arith; not_longer = omega arith; positive = omega arith }, tt)

validate_invoice_iff_example : (validate_invoice (raw_invoice order) ≡ some order) ↔ (
    (raw_invoice order ≡ raw_invoice order)
    × (order.line_items ≢ [])
    × All IsInBounds order.line_items)
validate_invoice_iff_example = validate_invoice_iff (raw_invoice order) order

-- No line item, a quantity of 0, a negative amount, and an empty description.
refused_bodies :
    let with_item = λ (description : _) (q u : ℤ). validate_invoice (record {
      customer_id = 10;
      due_date = none;
      line_items = record { description = description; quantity = q; unit_amount_cents = u } ∷ [];
    }) in
    (validate_invoice (record { customer_id = 10; due_date = none; line_items = [] }) ≡ none)
    × (with_item "seats" (pos 0) (pos 1) ≡ none)
    × (with_item "seats" (pos 1) (negsuc 0) ≡ none)
    × (with_item "" (pos 1) (pos 1) ≡ none)
unfolding validate_invoice validate_line_items validate_line_item
refused_bodies = (refl, refl, refl, refl)

pages :
    (validate_page none none ≡ some (0, 20))
    × (validate_page (some (pos 5)) (some (pos 100)) ≡ some (5, 100))
    × (validate_page (some (negsuc 0)) none ≡ none)
    × (validate_page none (some (pos 0)) ≡ none)
    × (validate_page none (some (pos 101)) ≡ none)
unfolding validate_page
pages = (refl, refl, refl, refl, refl)

abbrev key_of : Business → ApiKey
key_of b = record {
  id = b.id;
  business_id = b.id;
  key_hash = b.name;
  key_prefix = b.name;
  is_active = true;
  created_at = 0;
  revoked_at = none;
}

abbrev revoked_db : Db
revoked_db = record start_db {
  api_keys = record (key_of acme) { is_active = false } ∷ key_of globex ∷ [];
}

-- A key that has been revoked, beside one that has not.
handle-refused_example :
    handle "billing" small_world
      (draws_from 100)
      "s"
      (some (record { scheme = "Bearer"; credentials = "Acme" }))
      (of_tenant (invoice_void 30))
      (open_session revoked_db)
    ≡ (answered (http_exception 401 "Invalid API key"), open_session revoked_db)
unfolding hash_api_key strip lstrip rstrip
handle-refused_example =
    handle-refused "billing" small_world (draws_from 100) "s"
      (some (record { scheme = "Bearer"; credentials = "Acme" })) (invoice_void 30)
      (open_session revoked_db) (λ bearer. ((λ e. refl), ((λ e. cc e), tt)))

abbrev pub two_tenants : Db
two_tenants = record start_db { api_keys = key_of acme ∷ key_of globex ∷ [] }

abbrev by_globex : Request → Incoming
by_globex request = record {
  world = small_world;
  draws = draws_from 100;
  secret = "s";
  credentials = some (record { scheme = "Bearer"; credentials = "Globex" });
  request = request;
}

-- A tenant that tries its own and another's rows.
abbrev attempts : List Incoming
attempts =
    by_globex (of_tenant (customers_post "Alice" "alice@example.com"))
    ∷ by_globex (of_tenant (invoice_void 30))
    ∷ by_globex (of_tenant (invoice_pay 30 "tok_success" (some "k1")))
    ∷ by_globex (of_tenant (endpoint_delete 20))
    ∷ record (by_globex (of_tenant (invoice_void 30))) { credentials = none }
    ∷ []

as_globex :
    get_current_business small_world
      (some (record { scheme = "Bearer"; credentials = "Globex" }))
      two_tenants
    ≡ accepted globex
unfolding get_current_business hash_api_key strip lstrip rstrip is_bearer
as_globex = refl

is_globex : (b : Business) → accepted globex ≡ accepted b → (b.id == 1) ≡ false
is_globex b e = ground arith

pub two_tenants-IsKeyed : IsKeyed two_tenants
two_tenants-IsKeyed = record { of_invoices = λ i. ground arith; of_endpoints = λ i. ground arith }

handle_all-isolates_example : Untouched 1 two_tenants (handle_all "billing" attempts two_tenants)
unfolding get_current_business
handle_all-isolates_example =
    handle_all-isolates "billing" 1 attempts two_tenants two_tenants-IsKeyed (
      (λ b e. is_globex b (sym as_globex ∙ e)),
      (
        (λ b e. is_globex b (sym as_globex ∙ e)),
        (
          (λ b e. is_globex b (sym as_globex ∙ e)),
          ((λ b e. is_globex b (sym as_globex ∙ e)), ((λ b e. cc), tt)),
        ),
      ),
    )
