-- ===== src/Session.antt =====
-- An SQLAlchemy session (app/database.py) as state passing: the committed tables, the tables as
-- the open transaction sees them, and the requests sent to the PSP. What was written before a raise
-- stays in the transaction until a rollback.
use tenant_billing_service.Base.{ℕ, String, Option, none, some, List, [], ◌∷◌}
use tenant_billing_service.Errors.{
  Result, ok, err, AppError, database, no_result_found, multiple_results_found,
}
use tenant_billing_service.Model.Db.{Db}

-- The JSON body of a charge request: "card_token", "amount_cents" and "idempotency_key".
pub record PspRequest : Type 0 where
  pub card_token : String
  pub amount_cents : ℕ
  pub idempotency_key : Option String

pub record Session : Type 0 where
  pub committed : Db
  pub working : Db
  pub sent : List PspRequest

abbrev pub Action : Type 0 → Type 0
Action A = Session → Result A × Session

module _ {A : Type 0} where
  abbrev pub pure : A → Action A
  pure a s = (ok a, s)

  abbrev pub raise : AppError → Action A
  raise e s = (err e, s)

  abbrev pub lift : Result A → Action A
  lift r s = (r, s)

  -- A query on the tables as the transaction sees them.
  abbrev pub query : (Db → A) → Action A
  query f s = (ok (f s.working), s)

infixl 5 ◌>>=◌ ◌>>◌
abbrev pub ◌>>=◌ : {A B : Type 0} → Action A → (A → Action B) → Action B
◌>>=◌ m f s = let (r, s') = m s in elim r [ ok a ↦ f a s' | err e ↦ raise e s' ]

abbrev pub ◌>>◌ : {A B : Type 0} → Action A → Action B → Action B
m >> k = m >>= λ _. k

-- A write to the tables of the open transaction.
abbrev pub write : (Db → Db) → Action (Unit {0})
write f s = (ok tt, record s { working = f s.working })

abbrev pub commit : Action (Unit {0})
commit s = (ok tt, record s { committed = s.working })

abbrev pub rollback : Action (Unit {0})
rollback s = (ok tt, record s { working = s.committed })

-- `scalar_one_or_none()` and `scalar_one()`
module _ {A : Type 0} where
  abbrev pub scalar_one_or_none : List A → Result (Option A)
  scalar_one_or_none [] = ok none
  scalar_one_or_none (x ∷ []) = ok (some x)
  scalar_one_or_none (x ∷ y ∷ r) = err (database multiple_results_found)

  abbrev pub scalar_one : List A → Result A
  scalar_one [] = err (database no_result_found)
  scalar_one (x ∷ []) = ok x
  scalar_one (x ∷ y ∷ r) = err (database multiple_results_found)

-- `get_db`: whatever a handler leaves uncommitted is rolled back when its session closes.
abbrev pub open_session : Db → Session
open_session db = record { committed = db; working = db; sent = [] }

-- A session with no open transaction, after some requests to the PSP.
abbrev pub clean : Db → List PspRequest → Session
clean db sent = record { committed = db; working = db; sent = sent }

-- What a handler that ends with `db.commit()` leaves in the tables.
abbrev pub committed_by : {A : Type 0} → Action A → Db → Db
committed_by m db = ((m >>= λ a. commit >> pure a) (open_session db)).1.committed
