-- ===== src/Model/Invoice.antt =====
-- app/models/invoice.py: the states of an invoice, invoices and their line items.
-- A row's UUIDs and times are numbers. The column `state` holds an `InvoiceState`, which is what
-- its CHECK constraint says.
use tenant_billing_service.Base.{ℕ, String, Bool, Option, List, [], ◌∷◌, ◌==◌, any}

pub data InvoiceState : Type 0 where
  draft open_ paid void uncollectible : InvoiceState

abbrev pub value : InvoiceState → String
value draft = "draft"
value open_ = "open"
value paid = "paid"
value void = "void"
value uncollectible = "uncollectible"

-- The place of a state in its enumeration, by which states are compared.
abbrev pub ordinal : InvoiceState → ℕ
ordinal draft = 0
ordinal open_ = 1
ordinal paid = 2
ordinal void = 3
ordinal uncollectible = 4

abbrev pub same_state : InvoiceState → InvoiceState → Bool
same_state a b = ordinal a == ordinal b

abbrev pub in_states : InvoiceState → List InvoiceState → Bool
in_states s states = any (same_state s) states

abbrev pub terminal_states : List InvoiceState
terminal_states = paid ∷ void ∷ uncollectible ∷ []

pub record Invoice : Type 0 where
  pub id : ℕ
  pub business_id : ℕ
  pub customer_id : ℕ
  pub state : InvoiceState
  pub total_cents : ℕ
  pub due_date : Option ℕ
  pub created_at : ℕ
  pub updated_at : ℕ

pub record InvoiceLineItem : Type 0 where
  pub id : ℕ
  pub invoice_id : ℕ
  pub description : String
  pub quantity : ℕ
  pub unit_amount_cents : ℕ
  pub amount_cents : ℕ
  pub created_at : ℕ
