-- ===== src/Auth.antt =====
-- app/utils/api_keys.py and app/dependencies.py: API keys, and the tenant that a request comes from.
pub mod Texts
pub mod Laws
use Prim.Native.String.{◌++◌ as ◌+text+◌}
use tenant_billing_service.Base.{
  ℕ, zero, suc, ◌+◌, String, Bool, true, false, Option, none, some, List, [], ◌∷◌, ◌&&◌, ◌||◌, ◌==◌,
  leb, select, str_eq, if◌then◌else◌,
}
use tenant_billing_service.Model.Tenant.{Business, ApiKey}
use tenant_billing_service.Model.Db.{Db}
use tenant_billing_service.World.{World}
use tenant_billing_service.Auth.Texts.{take_text, is_bearer, strip}

abbrev pub prefix : String
prefix = "sk_live_"

abbrev pub prefix_display_length : ℕ
prefix_display_length = 12

pub record GeneratedApiKey : Type 0 where
  pub plaintext : String
  pub key_hash : String
  pub key_prefix : String

unfoldable pub hash_api_key : World → String → String
hash_api_key w plaintext = w.sha256_hex plaintext

-- `random_part` is what `secrets.token_urlsafe(32)` draws.
unfoldable pub generate_api_key : World → String → GeneratedApiKey
generate_api_key w random_part = record {
  plaintext = prefix +text+ random_part;
  key_hash = w.sha256_hex (prefix +text+ random_part);
  key_prefix = take_text prefix_display_length (prefix +text+ random_part);
}

unfoldable pub verify_api_key : World → String → String → Bool
verify_api_key w plaintext stored_hash = str_eq (w.sha256_hex plaintext) stored_hash

-- What the HTTPBearer scheme reads from the Authorization header.
pub record Credentials : Type 0 where
  pub scheme : String
  pub credentials : String

-- What the dependency comes to: the tenant, the one 401, or an error that it does not handle.
pub data Access : Type 0 where
  accepted : Business → Access
  unauthorized : Access
  multiple_rows : Access

abbrev pub is_key : String → ApiKey → Bool
is_key key_hash k = str_eq k.key_hash key_hash && k.is_active

abbrev pub has_business_id : ℕ → Business → Bool
has_business_id id b = b.id == id

abbrev pub owner_of : List Business → Access
owner_of [] = unauthorized
owner_of (business ∷ []) = accepted business
owner_of (x ∷ y ∷ rest) = multiple_rows

abbrev pub business_of : Db → List ApiKey → Access
business_of db [] = unauthorized
business_of db (k ∷ []) = owner_of (select (has_business_id k.business_id) db.businesses)
business_of db (x ∷ y ∷ rest) = multiple_rows

abbrev pub look_up : World → String → Db → Access
look_up w plaintext db =
    if str_eq plaintext ""
    then unauthorized
    else business_of db (select (is_key (hash_api_key w plaintext)) db.api_keys)

unfoldable pub get_current_business : World → Option Credentials → Db → Access
get_current_business w none db = unauthorized
get_current_business w (some c) db =
    if is_bearer c.scheme then look_up w (strip c.credentials) db else unauthorized
