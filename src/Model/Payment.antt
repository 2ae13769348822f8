-- ===== src/Model/Payment.antt =====
-- app/models/payment.py: payment attempts.
use tenant_billing_service.Base.{ℕ, String, Bool, true, false, Option}

pub data PaymentStatus : Type 0 where
  pending succeeded failed : PaymentStatus

abbrev pub is_pending : PaymentStatus → Bool
is_pending pending = true
is_pending _ = false

pub record PaymentAttempt : Type 0 where
  pub id : ℕ
  pub invoice_id : ℕ
  pub idempotency_key : String
  pub request_hash : String
  pub status : PaymentStatus
  pub amount_cents : ℕ
  pub card_token : String
  pub psp_ref : Option String
  pub failure_code : Option String
  pub created_at : ℕ
  pub updated_at : ℕ
