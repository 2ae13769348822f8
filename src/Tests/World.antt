-- ===== src/Tests/World.antt =====
-- A small world: the mock PSP of mock_psp/main.py as the outside service, one tenant with one
-- endpoint, and an open invoice.
use Prim.Native.String.{◌++◌}
use tenant_billing_service.Base.{ℕ, ◌+◌, true, none, some, List, [], ◌∷◌, leb, if◌then◌else◌}
use tenant_billing_service.Model.Invoice.{Invoice, open_}
use tenant_billing_service.Model.Payment.{PaymentAttempt, pending}
use tenant_billing_service.Model.Webhook.{WebhookEndpoint}
use tenant_billing_service.Model.Tenant.{Business, Customer}
use tenant_billing_service.Model.Db.{Db}
use tenant_billing_service.Session.{PspRequest, Session, open_session}
use tenant_billing_service.MockPsp as MockPsp
use tenant_billing_service.World.{World, Draws, PspBody, HttpOutcome, timeout_exception, response}

abbrev body_of : MockPsp.ChargeResponse → PspBody
body_of r = record {
  status = some (some r.status);
  psp_ref = r.psp_ref;
  code = r.code;
  failure_code = none;
}

-- What a client with a timeout makes of a reply; an error's body has none of the keys.
abbrev as_seen : ℕ → MockPsp.Reply → HttpOutcome
as_seen timeout (MockPsp.replied delay r) =
    if leb timeout delay then timeout_exception else response 200 (some (body_of r))
as_seen timeout (MockPsp.http_error status_code detail) =
    response status_code
      (some (record { status = none; psp_ref = none; code = none; failure_code = none }))

-- The answers of mock_psp, as the service's client sees them with its timeout of 12 seconds.
unfoldable pub mock_psp : List PspRequest → PspRequest → HttpOutcome
unfolding MockPsp.charge
mock_psp sent request = as_seen 120 (MockPsp.charge "ref" request)

-- SQLAlchemy keeps an object that the session has loaded as it is.
abbrev pub small_world : World
small_world = record {
  sha256_hex = λ s. s;
  hmac_hex = λ secret content. "5f" ++ secret;
  json_string = λ s. "\"" ++ (s ++ "\"");
  json_object = λ fields. "{}";
  email_address = λ s. some s;
  uuid_text = λ n. "id";
  post = mock_psp;
  report = λ c others. c;
  reload = λ loaded row. loaded;
}

abbrev pub draws_from : ℕ → Draws
draws_from n = record { uuid = λ k. n + k; clock = λ k. n + k }

abbrev pub acme : Business
acme = record { id = 1; name = "Acme"; created_at = 0; updated_at = 0 }

abbrev pub globex : Business
globex = record { id = 2; name = "Globex"; created_at = 0; updated_at = 0 }

abbrev pub alice : Customer
alice = record {
  id = 10;
  business_id = 1;
  name = "Alice";
  email = "alice@example.com";
  created_at = 0;
  updated_at = 0;
}

abbrev pub endpoint : WebhookEndpoint
endpoint = record {
  id = 20;
  business_id = 1;
  url = "https://acme.test/hook";
  signing_secret = "s3cret";
  is_active = true;
  created_at = 0;
}

abbrev pub open_invoice : Invoice
open_invoice = record {
  id = 30;
  business_id = 1;
  customer_id = 10;
  state = open_;
  total_cents = 155000;
  due_date = none;
  created_at = 0;
  updated_at = 0;
}

abbrev pub start_db : Db
start_db = record {
  businesses = acme ∷ globex ∷ [];
  api_keys = [];
  customers = alice ∷ [];
  webhook_endpoints = endpoint ∷ [];
  invoices = open_invoice ∷ [];
  webhook_deliveries = [];
  invoice_line_items = [];
  payment_attempts = [];
}

abbrev pub start : Session
start = open_session start_db

-- What step 2 inserts for the open invoice, with the draws from 100.
abbrev pub pending_attempt : PaymentAttempt
pending_attempt = record {
  id = 100;
  invoice_id = 30;
  idempotency_key = "k1";
  request_hash = "{\"card_token\": \"tok_success\"}";
  status = pending;
  amount_cents = 155000;
  card_token = "tok_success";
  psp_ref = none;
  failure_code = none;
  created_at = 100;
  updated_at = 100;
}

abbrev pub pending_db : Db
pending_db = record start_db { payment_attempts = pending_attempt ∷ [] }
