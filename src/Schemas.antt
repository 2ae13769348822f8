-- ===== src/Schemas.antt =====
-- app/schemas and the parameters of the handlers in app/routers: which requests the framework lets
-- through to a handler; the others it answers with 422. Numbers are whole numbers of any sign, as
-- they stand in the request.
pub mod Laws
pub mod Reads
use Prim.Native.String.{count as chars}
use tenant_billing_service.Base.{
  ℕ, zero, suc, String, Bool, ◌&&◌, Option, none, some, List, [], ◌∷◌, leb, if◌then◌else◌,
}
use tenant_billing_service.World.{World}
use tenant_billing_service.Signing.Decimal.{ℤ, pos, negsuc}
use tenant_billing_service.Invoices.{InvoiceLineItemCreate, InvoiceCreate}

-- `gt=0` and `ge=0`
abbrev pub gt_zero : ℤ → Option ℕ
gt_zero (pos zero) = none
gt_zero (pos (suc n)) = some (suc n)
gt_zero (negsuc n) = none

abbrev pub ge_zero : ℤ → Option ℕ
ge_zero (pos n) = some n
ge_zero (negsuc n) = none

-- `min_length` and `max_length`
abbrev pub has_length : ℕ → ℕ → String → Bool
has_length low high s = leb low (chars s) && leb (chars s) high

pub record RawLineItem : Type 0 where
  pub description : String
  pub quantity : ℤ
  pub unit_amount_cents : ℤ

pub record RawInvoice : Type 0 where
  pub customer_id : ℕ
  pub due_date : Option ℕ
  pub line_items : List RawLineItem

abbrev pub line_item : String → Option ℕ → Option ℕ → Option InvoiceLineItemCreate
line_item description none unit_amount_cents = none
line_item description (some quantity) none = none
line_item description (some quantity) (some unit_amount_cents) = some (record {
  description = description;
  quantity = quantity;
  unit_amount_cents = unit_amount_cents;
})

-- `InvoiceLineItemCreate`
unfoldable pub validate_line_item : RawLineItem → Option InvoiceLineItemCreate
validate_line_item raw =
    if has_length 1 500 raw.description
    then line_item raw.description (gt_zero raw.quantity) (ge_zero raw.unit_amount_cents)
    else none

abbrev pub both :
    Option InvoiceLineItemCreate
    → Option (List InvoiceLineItemCreate)
    → Option (List InvoiceLineItemCreate)
both none items = none
both (some li) none = none
both (some li) (some items) = some (li ∷ items)

unfoldable pub validate_line_items : List RawLineItem → Option (List InvoiceLineItemCreate)
validate_line_items [] = some []
validate_line_items (raw ∷ raws) = both (validate_line_item raw) (validate_line_items raws)

abbrev pub invoice_with : RawInvoice → Option (List InvoiceLineItemCreate) → Option InvoiceCreate
invoice_with raw none = none
invoice_with raw (some []) = none
invoice_with raw (some (li ∷ items)) =
    some
      (record { customer_id = raw.customer_id; due_date = raw.due_date; line_items = li ∷ items })

-- `InvoiceCreate`; `line_items` has `min_length=1`.
unfoldable pub validate_invoice : RawInvoice → Option InvoiceCreate
validate_invoice raw = invoice_with raw (validate_line_items raw.line_items)

abbrev pub customer_with : String → Option String → Option (String × String)
customer_with name none = none
customer_with name (some email) =
    if has_length 1 200 name && leb (chars email) 320 then some (name, email) else none

-- `CustomerCreate`, as its name and its email.
unfoldable pub validate_customer : World → String → String → Option (String × String)
validate_customer w name email = customer_with name (w.email_address email)

-- `skip: int = Query(default=0, ge=0)`
abbrev pub validate_skip : Option ℤ → Option ℕ
validate_skip none = some 0
validate_skip (some n) = ge_zero n

abbrev pub up_to : ℕ → Option ℕ → Option ℕ
up_to high none = none
up_to high (some n) = if leb n high then some n else none

-- `limit: int = Query(default=20, ge=1, le=100)`
abbrev pub validate_limit : Option ℤ → Option ℕ
validate_limit none = some 20
validate_limit (some n) = up_to 100 (gt_zero n)

abbrev pub page_with : Option ℕ → Option ℕ → Option (ℕ × ℕ)
page_with none limit = none
page_with (some skip) none = none
page_with (some skip) (some limit) = some (skip, limit)

unfoldable pub validate_page : Option ℤ → Option ℤ → Option (ℕ × ℕ)
validate_page skip limit = page_with (validate_skip skip) (validate_limit limit)
