-- ===== src/Payment/Attempts.antt =====
-- The table payment_attempts: its queries, its constraints (app/models/payment.py and the partial
-- unique index of alembic/versions/ec465f54d10f), the INSERT and the UPDATE.
use Prim.Native.String.{count as chars}
use tenant_billing_service.Base.{
  ℕ, ◌^◌, String, Bool, true, ◌&&◌, Option, none, some, List, [], ◌∷◌, ◌++◌, ◌==◌, leb, ltb, str_eq,
  any, select, update_where, if◌then◌else◌,
}
use tenant_billing_service.Errors.{
  Constraint, payment_attempts_pkey, uq_payment_attempts_invoice_idem_key,
  uq_payment_attempts_one_pending_per_invoice, ck_payment_attempts_amount_pos, invoices_pkey,
  invoice_line_items_pkey, ck_line_items_qty_positive, customers_pkey, uq_customers_business_email,
  webhook_endpoints_pkey, webhook_deliveries_pkey, integrity, data_error, database,
}
use tenant_billing_service.Model.Payment.{PaymentAttempt, is_pending}
use tenant_billing_service.Model.Db.{Db}
use tenant_billing_service.Session.{Action, raise, query, write, ◌>>=◌}
use tenant_billing_service.World.{World}
use tenant_billing_service.Psp.{contains_text}

abbrev pub has_key : ℕ → String → PaymentAttempt → Bool
has_key invoice_id idempotency_key a =
    a.invoice_id == invoice_id && str_eq a.idempotency_key idempotency_key

abbrev pub has_id : ℕ → PaymentAttempt → Bool
has_id id a = a.id == id

-- The rows that the partial unique index on (invoice_id) WHERE status = 'pending' holds.
abbrev pub is_pending_on : ℕ → PaymentAttempt → Bool
is_pending_on invoice_id a = a.invoice_id == invoice_id && is_pending a.status

unfoldable pub find_attempts : ℕ → String → Db → List PaymentAttempt
find_attempts invoice_id idempotency_key db =
    select (has_key invoice_id idempotency_key) db.payment_attempts

unfoldable pub attempts_by_id : ℕ → Db → List PaymentAttempt
attempts_by_id id db = select (has_id id) db.payment_attempts

abbrev pub constraint_name : Constraint → String
constraint_name payment_attempts_pkey = "payment_attempts_pkey"
constraint_name uq_payment_attempts_invoice_idem_key = "uq_payment_attempts_invoice_idem_key"
constraint_name uq_payment_attempts_one_pending_per_invoice =
    "uq_payment_attempts_one_pending_per_invoice"
constraint_name ck_payment_attempts_amount_pos = "ck_payment_attempts_amount_pos"
constraint_name invoices_pkey = "invoices_pkey"
constraint_name invoice_line_items_pkey = "invoice_line_items_pkey"
constraint_name ck_line_items_qty_positive = "ck_line_items_qty_positive"
constraint_name customers_pkey = "customers_pkey"
constraint_name uq_customers_business_email = "uq_customers_business_email"
constraint_name webhook_endpoints_pkey = "webhook_endpoints_pkey"
constraint_name webhook_deliveries_pkey = "webhook_deliveries_pkey"

-- `"one_pending_per_invoice" in error_msg`, of the message that names the constraint.
unfoldable pub is_one_pending : Constraint → Bool
is_one_pending c = contains_text (constraint_name c) "one_pending_per_invoice"

abbrev pub if_violated : Bool → Constraint → List Constraint → List Constraint
if_violated test c rest = if test then c ∷ rest else rest

-- The constraints that a new row violates, beside the rows that stand in the table.
unfoldable pub violated : PaymentAttempt → List PaymentAttempt → List Constraint
violated a rows = if_violated (a.amount_cents == 0) ck_payment_attempts_amount_pos (
    if_violated (any (has_id a.id) rows) payment_attempts_pkey (
      if_violated (any (has_key a.invoice_id a.idempotency_key) rows)
        uq_payment_attempts_invoice_idem_key
        (if_violated (is_pending a.status && any (is_pending_on a.invoice_id) rows)
          uq_payment_attempts_one_pending_per_invoice [])))

-- The widths of the columns: varchar(n) counts characters.
unfoldable pub fits_columns : PaymentAttempt → Bool
fits_columns a =
    leb (chars a.idempotency_key) 255
    && (leb (chars a.card_token) 100 && ltb a.amount_cents (2 ^ 63))

abbrev pub fits_text : ℕ → Option String → Bool
fits_text n none = true
fits_text n (some s) = leb (chars s) n

abbrev pub add_or_report : World → PaymentAttempt → List Constraint → Action (Unit {0})
add_or_report w a [] = write (λ db. record db { payment_attempts = db.payment_attempts ++ a ∷ [] })
add_or_report w a (c ∷ others) = raise (database (integrity (w.report c others)))

-- The INSERT that `session.flush()` sends for a new attempt.
unfoldable pub insert_attempt : World → PaymentAttempt → Action (Unit {0})
insert_attempt w a =
    if fits_columns a
    then (do
      violations ← query (λ db. violated a db.payment_attempts)
      add_or_report w a violations)
    else raise (database data_error)

-- The UPDATE of one attempt, by its primary key; `f` sets the changed columns.
unfoldable pub save_attempt : ℕ → (PaymentAttempt → PaymentAttempt) → Action (Unit {0})
save_attempt id f =
    write (λ db. record db { payment_attempts = update_where (has_id id) f db.payment_attempts })
