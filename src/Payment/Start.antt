-- ===== src/Payment/Start.antt =====
-- Steps 1 and 2 of `process_payment` in app/services/payment_service.py, up to the first commit:
-- the lookup of the idempotency key, the lock, the state check and the pending attempt.
use Prim.Native.String.{◌++◌}
use tenant_billing_service.Base.{
  ℕ, String, Bool, ◌&&◌, Option, none, some, List, ◌==◌, str_eq, select, if◌then◌else◌,
}
use tenant_billing_service.Errors.{
  Result, ok, err, Constraint, integrity, database, not_found, invalid_state_transition,
  idempotency_conflict,
}
use tenant_billing_service.Model.Invoice.{Invoice, paid}
use tenant_billing_service.Model.Payment.{PaymentAttempt, pending}
use tenant_billing_service.Model.Tenant.{Business}
use tenant_billing_service.Model.Db.{Db}
use tenant_billing_service.Session.{
  Action, pure, raise, lift, query, commit, rollback, ◌>>=◌, ◌>>◌, scalar_one_or_none,
}
use tenant_billing_service.World.{World, Draws}
use tenant_billing_service.Machine.{assert_transition_allowed}
use tenant_billing_service.Payment.Attempts.{find_attempts, insert_attempt, is_one_pending}

-- `_hash_request_body`
unfoldable pub hash_request_body : World → String → String
hash_request_body w card_token =
    w.sha256_hex ("{\"card_token\": " ++ (w.json_string card_token ++ "}"))

-- What steps 1 and 2 come to: a cached attempt, or a new one with the invoice that was loaded.
pub data Started : Type 0 where
  cached : PaymentAttempt → Started
  started : PaymentAttempt → Invoice → Started

-- STEP 1, where an attempt with the key exists.
unfoldable pub replay_attempt : String → PaymentAttempt → Action Started
replay_attempt request_hash existing =
    if str_eq existing.request_hash request_hash
    then pure (cached existing)
    else raise idempotency_conflict

abbrev pub invoice_of : ℕ → ℕ → Invoice → Bool
invoice_of business_id invoice_id invoice =
    invoice.id == invoice_id && invoice.business_id == business_id

unfoldable pub find_invoices : ℕ → ℕ → Db → List Invoice
find_invoices business_id invoice_id db = select (invoice_of business_id invoice_id) db.invoices

-- After a rollback: the row that won the race for the key, if it has the same body.
abbrev pub winner_or_conflict : String → Option PaymentAttempt → Action Started
winner_or_conflict request_hash none = raise idempotency_conflict
winner_or_conflict request_hash (some winner) =
    if str_eq winner.request_hash request_hash
    then pure (cached winner)
    else raise idempotency_conflict

abbrev pub in_progress : String
in_progress = "another payment attempt is already in progress for this invoice"

-- The handler of `except IntegrityError`.
unfoldable pub lost_race : ℕ → String → String → Constraint → Action Started
lost_race invoice_id idempotency_key request_hash c =
    if is_one_pending c
    then raise (
        invalid_state_transition
          (record { from_state = "open"; to_state = "paid"; reason = some in_progress }))
    else do
      existing ← query (find_attempts invoice_id idempotency_key)
      winner ← lift (scalar_one_or_none existing)
      winner_or_conflict request_hash winner

-- What follows the flush of the pending attempt: the commit, or the handler.
abbrev pub after_flush : PaymentAttempt → Invoice → Result (Unit {0}) → Action Started
after_flush attempt invoice (ok _) = commit >> pure (started attempt invoice)
after_flush attempt invoice (err (database (integrity c))) =
    rollback >> lost_race attempt.invoice_id attempt.idempotency_key attempt.request_hash c
after_flush attempt invoice (err e) = raise e

unfoldable pub new_attempt : ℕ → ℕ → ℕ → Invoice → String → String → String → PaymentAttempt
new_attempt id now invoice_id invoice card_token idempotency_key request_hash = record {
  id = id;
  invoice_id = invoice_id;
  idempotency_key = idempotency_key;
  request_hash = request_hash;
  status = pending;
  amount_cents = invoice.total_cents;
  card_token = card_token;
  psp_ref = none;
  failure_code = none;
  created_at = now;
  updated_at = now;
}

-- `session.flush()` under `try`: the result of the INSERT is handed to `after_flush`.
unfoldable pub flush_attempt : World → PaymentAttempt → Invoice → Action Started
flush_attempt w attempt invoice s =
    let (r, s') = insert_attempt w attempt s in after_flush attempt invoice r s'

abbrev pub pay_invoice_row : World → Draws → ℕ → String → String → Option Invoice → Action Started
pay_invoice_row w d invoice_id card_token idempotency_key none =
    raise (not_found ("Invoice " ++ (w.uuid_text invoice_id ++ " not found")) none)
pay_invoice_row w d invoice_id card_token idempotency_key (some invoice) = do
  lift (assert_transition_allowed invoice.state paid)
  flush_attempt w
      (new_attempt (d.uuid 0) (d.clock 0) invoice_id invoice card_token idempotency_key
        (hash_request_body w card_token))
      invoice

-- STEP 2: lock the invoice, validate its state, insert the pending attempt and commit.
unfoldable pub lock_and_insert : World → Draws → Business → ℕ → String → String → Action Started
lock_and_insert w d business invoice_id card_token idempotency_key = do
  locked ← query (find_invoices business.id invoice_id)
  invoice ← lift (scalar_one_or_none locked)
  pay_invoice_row w d invoice_id card_token idempotency_key invoice

abbrev pub replay_or_lock :
    World → Draws → Business → ℕ → String → String → Option PaymentAttempt → Action Started
replay_or_lock w d business invoice_id card_token idempotency_key none =
    lock_and_insert w d business invoice_id card_token idempotency_key
replay_or_lock w d business invoice_id card_token idempotency_key (some existing) =
    replay_attempt (hash_request_body w card_token) existing

unfoldable pub start_payment : World → Draws → Business → ℕ → String → String → Action Started
start_payment w d business invoice_id card_token idempotency_key = do
  existing ← query (find_attempts invoice_id idempotency_key)
  existing_attempt ← lift (scalar_one_or_none existing)
  replay_or_lock w d business invoice_id card_token idempotency_key existing_attempt
