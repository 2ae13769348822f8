-- ===== src/Errors.antt =====
-- app/exceptions.py: the domain exceptions, and the failures that no handler of the services
-- catches, as values of one type.
use Prim.Native.String.{◌++◌}
use tenant_billing_service.Base.{
  ℕ, ◌≡◌, refl, ◌⊎◌, inl, inr, String, Option, none, some, str_eq, if◌then◌else◌,
}

-- The constraints of the tables that an INSERT or an UPDATE of the services can violate, by the
-- names that alembic/versions gives them.
pub data Constraint : Type 0 where
  payment_attempts_pkey : Constraint
  uq_payment_attempts_invoice_idem_key : Constraint
  uq_payment_attempts_one_pending_per_invoice : Constraint
  ck_payment_attempts_amount_pos : Constraint
  invoices_pkey : Constraint
  invoice_line_items_pkey : Constraint
  ck_line_items_qty_positive : Constraint
  customers_pkey : Constraint
  uq_customers_business_email : Constraint
  webhook_endpoints_pkey : Constraint
  webhook_deliveries_pkey : Constraint

-- What a database call raises: a violated constraint (IntegrityError), a value that does not fit
-- its column (DataError), or an unexpected number of rows.
pub data DbError : Type 0 where
  integrity : Constraint → DbError
  data_error : DbError
  no_result_found : DbError
  multiple_results_found : DbError

pub record Transition : Type 0 where
  pub from_state : String
  pub to_state : String
  pub reason : Option String

pub data AppError : Type 0 where
  not_found : String → Option ℕ → AppError
  conflict : String → AppError
  invalid_state_transition : Transition → AppError
  idempotency_conflict : AppError
  missing_idempotency_key : AppError
  -- Python's own errors out of the PSP's answer: no JSON, or no "status" in it
  bad_psp_body : AppError
  database : DbError → AppError

pub data Result {ℓ} (A : Type ℓ) : Type ℓ where
  ok : A → Result A
  err : AppError → Result A

-- `reason or f"cannot transition from …"`: an empty reason counts as none.
unfoldable pub transition_message : Transition → String
transition_message t =
    let default : String =
      "cannot transition from '" ++ (t.from_state ++ ("' to '" ++ (t.to_state ++ "'"))) in
    elim t.reason [ none ↦ default | some r ↦ if str_eq r "" then default else r ]

pub Result-cases {ℓ} :
    {A : Type ℓ} (r : Result A) → ((a : A) × (r ≡ ok a)) ⊎ ((e : AppError) × (r ≡ err e))
Result-cases (ok a) = inl (a, refl)
Result-cases (err e) = inr (e, refl)
