-- ===== src/Model/Db.antt =====
-- The tables of the service (alembic/versions/e9e0b3d14d71_initial_schema.py), as lists of rows.
use tenant_billing_service.Base.{List}
use tenant_billing_service.Model.Invoice.{Invoice, InvoiceLineItem}
use tenant_billing_service.Model.Payment.{PaymentAttempt}
use tenant_billing_service.Model.Webhook.{WebhookEndpoint, WebhookDelivery}
use tenant_billing_service.Model.Tenant.{Business, ApiKey, Customer}

pub record Db : Type 0 where
  pub businesses : List Business
  pub api_keys : List ApiKey
  pub customers : List Customer
  pub webhook_endpoints : List WebhookEndpoint
  pub invoices : List Invoice
  pub webhook_deliveries : List WebhookDelivery
  pub invoice_line_items : List InvoiceLineItem
  pub payment_attempts : List PaymentAttempt
