-- ===== src/Payment/Idempotent.antt =====
-- A repeated request: once step 2 has committed an attempt, its key leads to that attempt, whatever
-- the PSP answers and whatever the second transaction does.
use tenant_billing_service.Base.{
  ℕ, ◌≡◌, refl, true, String, List, [], ◌∷◌, ◌++◌, arith, ==_refl, eq_refl, str_eq, select-append,
  select-none, select-update, update_where, if◌then◌else◌,
}
use tenant_billing_service.Errors.{ok, err, idempotency_conflict}
use tenant_billing_service.Model.Payment.{PaymentAttempt}
use tenant_billing_service.Model.Invoice.{Invoice}
use tenant_billing_service.Model.Tenant.{Business}
use tenant_billing_service.Model.Db.{Db}
use tenant_billing_service.Session.{Session, PspRequest, open_session, clean}
use tenant_billing_service.World.{World, Draws}
use tenant_billing_service.Psp.{ChargeOutcome}
use tenant_billing_service.Payment.{process_payment}
use tenant_billing_service.Payment.Attempts.{has_id, has_key, find_attempts}
use tenant_billing_service.Payment.Insert.{Admits}
use tenant_billing_service.Payment.Start.{hash_request_body, start_payment, started}
use tenant_billing_service.Payment.Resolve.{resolve_payment, unresolved, paid_by, declined_by}
use tenant_billing_service.Payment.Outcomes.{begun-Begins}
use tenant_billing_service.Payment.Effects.{
  Effect, untouched, unknown, declined, settled, resolve_payment-Effect,
}
use tenant_billing_service.Payment.Replay.{process_payment-replay}

-- The one attempt with a key, as far as a repeated request looks at it.
pub record Holds (i : ℕ) (key h : String) (id : ℕ) (db : Db) : Type 0 where
  pub attempt : PaymentAttempt
  pub found : find_attempts i key db ≡ attempt ∷ []
  pub same_id : attempt.id ≡ id
  pub same_hash : attempt.request_hash ≡ h

-- An INSERT that the table admits takes the key.
pub insert-Holds :
    (a : PaymentAttempt) (db : Db)
    → Admits a db.payment_attempts
    → Holds a.invoice_id a.idempotency_key a.request_hash a.id
        (record db { payment_attempts = db.payment_attempts ++ a ∷ [] })
unfolding find_attempts
insert-Holds a db admitted = record {
  attempt = a;
  found =
      rw
        (
          select-append,
          select-none (has_key a.invoice_id a.idempotency_key) db.payment_attempts admitted.new_key,
        )
        (ground (arith, ==_refl a.invoice_id, eq_refl a.idempotency_key));
  same_id = refl;
  same_hash = refl;
}

update-Holds :
    (i : ℕ) (key h : String) (id : ℕ) (db db' : Db) (f : PaymentAttempt → PaymentAttempt)
    → ((a : PaymentAttempt) → has_key i key (f a) ≡ has_key i key a)
    → ((a : PaymentAttempt) → ((f a).id ≡ a.id) × ((f a).request_hash ≡ a.request_hash))
    → db'.payment_attempts ≡ update_where (has_id id) f db.payment_attempts
    → Holds i key h id db
    → Holds i key h id db'
unfolding find_attempts
update-Holds i key h id db db' f same_key keeps e held = record {
  attempt = f held.attempt;
  found =
      rw (e, select-update (has_key i key) (has_id id) f same_key db.payment_attempts, held.found)
        (ground (arith, held.same_id));
  same_id = ground (arith, keeps held.attempt, held.same_id);
  same_hash = ground (arith, keeps held.attempt, held.same_hash);
}

-- No branch of the second transaction gives the key up.
pub Effect-Holds :
    (i : ℕ) (key h : String) (id now : ℕ) (db db' : Db)
    → Effect id i now db db'
    → Holds i key h id db
    → Holds i key h id db'
Effect-Holds i key h id now db db' (untouched same) held = rw same held
Effect-Holds i key h id now db db' (unknown e rows _) held =
    update-Holds i key h id db db' (unresolved e now) (λ a. refl) (λ a. (refl, refl)) rows held
Effect-Holds i key h id now db db' (declined r rows _) held =
    update-Holds i key h id db db' (declined_by r now) (λ a. refl) (λ a. (refl, refl)) rows held
Effect-Holds i key h id now db db' (settled r rows _) held =
    update-Holds i key h id db db' (paid_by r now) (λ a. refl) (λ a. (refl, refl)) rows held

module _ (w : World) (business : Business) (i : ℕ) (token key : String) where
  -- What every later request with the key comes to, on tables that hold its attempt.
  abbrev pub Answers : ℕ → Db → Type 0
  Answers id db =
      (row : PaymentAttempt) × (row.id ≡ id)
      × (row.request_hash ≡ hash_request_body w token)
      × ((b : Business) (d : Draws) (token' : String) (sent : List PspRequest)
          → process_payment w d b i token' key (clean db sent) ≡ (
            (if str_eq row.request_hash (hash_request_body w token')
                then ok (row, true)
                else err idempotency_conflict),
            clean db sent,
          ))

  Holds-Answers : (id : ℕ) (db : Db) → Holds i key (hash_request_body w token) id db → Answers id db
  Holds-Answers id db held = (
    held.attempt,
    held.same_id,
    held.same_hash,
    λ b d token' sent.
        process_payment-replay w d b i token' key (clean db sent) held.attempt held.found,
  )

  module _ (d : Draws) (db : Db) (a : PaymentAttempt) (invoice : Invoice) (s : Session)
      (begun : start_payment w d business i token key (open_session db)
        ≡ (ok (started a invoice), s)) where
    pub begun-Holds : Holds i key (hash_request_body w token) a.id s.committed
    begun-Holds =
        let (b, same, _) = begun-Begins w d business i token key db a invoice s begun in
        rw (b.written, ← same, ← b.of_hash, ← b.of_key, ← b.of_invoice)
          (insert-Holds b.attempt db b.admitted)

    -- Once step 2 of a payment has committed an attempt, every later request with its key, of any
    -- tenant, leads to that attempt even if the process stops before the PSP answers: the attempt
    -- as cached for a body with the same hash and a conflict for another, with nothing sent or
    -- changed.
    repeat-crashed : Answers a.id s.committed
    repeat-crashed = Holds-Answers a.id s.committed begun-Holds

    -- Once step 2 of a payment has committed an attempt and the second transaction has run on any
    -- outcome of the PSP, every request with its key on the tables that it leaves gets that
    -- attempt: the attempt as cached for a body with the same hash and a conflict for another,
    -- with nothing sent or changed.
    pub repeat-resolved :
        (outcome : ChargeOutcome) (sent : List PspRequest)
        → Answers a.id
            (resolve_payment w d business i invoice a outcome (clean s.committed sent)).1.committed
    repeat-resolved outcome sent =
        Holds-Answers a.id
          (resolve_payment w d business i invoice a outcome (clean s.committed sent)).1.committed
          (Effect-Holds i key (hash_request_body w token) a.id (d.clock 1) s.committed
            (resolve_payment w d business i invoice a outcome (clean s.committed sent)).1.committed
            (resolve_payment-Effect w d business i invoice a s.committed sent outcome) begun-Holds)
