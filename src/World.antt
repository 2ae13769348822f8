-- ===== src/World.antt =====
-- What the service uses and does not implement, as a parameter of the definitions that use it:
-- hashing, JSON texts, the PSP over HTTP, and what PostgreSQL and SQLAlchemy choose.
use tenant_billing_service.Base.{ℕ, String, Option, List}
use tenant_billing_service.Errors.{Constraint}
use tenant_billing_service.Model.Invoice.{Invoice}
use tenant_billing_service.Model.Webhook.{Json}
use tenant_billing_service.Session.{PspRequest}

-- The JSON object of an answer. A field is `none` where the key is missing or null, but for the status,
-- which is `none` where the key is missing and `some none` where it is null.
pub record PspBody : Type 0 where
  pub status : Option (Option String)
  pub psp_ref : Option String
  pub code : Option String
  pub failure_code : Option String

-- What `client.post` comes to: an exception of httpx, or a response. The body is `none` where it
-- is no JSON object.
pub data HttpOutcome : Type 0 where
  timeout_exception request_error : HttpOutcome
  response : ℕ → Option PspBody → HttpOutcome

pub record World : Type 0 where
  -- `hashlib.sha256(….encode()).hexdigest()`
  pub sha256_hex : String → String
  -- `hmac.new(secret.encode(), content.encode(), hashlib.sha256).hexdigest()`
  pub hmac_hex : String → String → String
  -- `json.dumps` of a text
  pub json_string : String → String
  -- `json.dumps` of an object as a JSONB column gives it back, without spaces
  pub json_object : List (String × Json) → String
  -- `EmailStr`: the address in its normal form, or none where the text is no address
  pub email_address : String → Option String
  -- `str` of a UUID
  pub uuid_text : ℕ → String
  -- The PSP's answer to a request, after the requests that were sent before.
  pub post : List PspRequest → PspRequest → HttpOutcome
  -- Of the constraints that a row violates (one, and the others), the one that PostgreSQL reports.
  pub report : Constraint → List Constraint → Constraint
  -- The object that a repeated SELECT gives for a row that the session has loaded before, from the
  -- loaded object and the row as it is now.
  pub reload : Invoice → Invoice → Invoice

-- What one request draws: the values of gen_random_uuid() and the readings of the clock, by turn.
pub record Draws : Type 0 where
  pub uuid : ℕ → ℕ
  pub clock : ℕ → ℕ
