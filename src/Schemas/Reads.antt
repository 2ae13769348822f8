-- ===== src/Schemas/Reads.antt =====
-- app/schemas: what an answer shows of a row (`model_validate`, and `_invoice_read` of
-- app/routers/invoices.py).
use tenant_billing_service.Base.{ℕ, String, Option, List, map}
use tenant_billing_service.Model.Invoice.{InvoiceLineItem, value}
use tenant_billing_service.Model.Payment.{PaymentAttempt, PaymentStatus, pending, succeeded, failed}
use tenant_billing_service.Model.Tenant.{Customer}
use tenant_billing_service.Invoices.{LoadedInvoice}

pub record CustomerRead : Type 0 where
  pub id : ℕ
  pub name : String
  pub email : String
  pub created_at : ℕ
  pub updated_at : ℕ

pub record InvoiceLineItemRead : Type 0 where
  pub id : ℕ
  pub description : String
  pub quantity : ℕ
  pub unit_amount_cents : ℕ
  pub amount_cents : ℕ

pub record InvoiceRead : Type 0 where
  pub id : ℕ
  pub customer_id : ℕ
  pub state : String
  pub total_cents : ℕ
  pub due_date : Option ℕ
  pub line_items : List InvoiceLineItemRead
  pub created_at : ℕ
  pub updated_at : ℕ

pub record PaymentAttemptRead : Type 0 where
  pub id : ℕ
  pub invoice_id : ℕ
  pub status : String
  pub amount_cents : ℕ
  pub card_token : String
  pub psp_ref : Option String
  pub failure_code : Option String
  pub idempotency_key : String
  pub created_at : ℕ
  pub updated_at : ℕ

abbrev pub customer_read : Customer → CustomerRead
customer_read c = record {
  id = c.id;
  name = c.name;
  email = c.email;
  created_at = c.created_at;
  updated_at = c.updated_at;
}

abbrev pub line_item_read : InvoiceLineItem → InvoiceLineItemRead
line_item_read li = record {
  id = li.id;
  description = li.description;
  quantity = li.quantity;
  unit_amount_cents = li.unit_amount_cents;
  amount_cents = li.amount_cents;
}

abbrev pub invoice_read : LoadedInvoice → InvoiceRead
invoice_read found = record {
  id = found.invoice.id;
  customer_id = found.invoice.customer_id;
  state = value found.invoice.state;
  total_cents = found.invoice.total_cents;
  due_date = found.invoice.due_date;
  line_items = map line_item_read found.line_items;
  created_at = found.invoice.created_at;
  updated_at = found.invoice.updated_at;
}

-- The values of `PaymentStatus`.
abbrev pub status_value : PaymentStatus → String
status_value pending = "pending"
status_value succeeded = "succeeded"
status_value failed = "failed"

abbrev pub attempt_read : PaymentAttempt → PaymentAttemptRead
attempt_read a = record {
  id = a.id;
  invoice_id = a.invoice_id;
  status = status_value a.status;
  amount_cents = a.amount_cents;
  card_token = a.card_token;
  psp_ref = a.psp_ref;
  failure_code = a.failure_code;
  idempotency_key = a.idempotency_key;
  created_at = a.created_at;
  updated_at = a.updated_at;
}
