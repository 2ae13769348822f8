-- ===== src/App/Payments.antt =====
-- What a payment leaves of the rows of other tenants.
use tenant_billing_service.Base.{
  ℕ, ◌≡◌, refl, inl, inr, String, false, List, [], ◌∷◌, ◌++◌, arith, ◌==◌,
}
use tenant_billing_service.Errors.{Result-cases}
use tenant_billing_service.Model.Invoice.{Invoice, paid}
use tenant_billing_service.Model.Payment.{PaymentAttempt}
use tenant_billing_service.Model.Tenant.{Business}
use tenant_billing_service.Model.Db.{Db}
use tenant_billing_service.Session.{Session, PspRequest, open_session, clean}
use tenant_billing_service.World.{World, Draws}
use tenant_billing_service.Outbox.{enqueue_event}
use tenant_billing_service.Psp.{ChargeOutcome, charged, failed_with, raised}
use tenant_billing_service.Payment.{process_payment}
use tenant_billing_service.Payment.Attempts.{save_attempt, attempts_by_id}
use tenant_billing_service.Payment.Start.{find_invoices}
use tenant_billing_service.Payment.Resolve.{
  resolve_payment, settle, settle_succeeded, settle_declined, set_invoice_state, has_invoice_id,
}
use tenant_billing_service.Payment.Effects.{
  Effect, untouched, unknown, declined, settled, resolve_payment-Effect,
}
use tenant_billing_service.Payment.Composed.{process_payment-holds}
use tenant_billing_service.App.Owners.{Untouched, Untouched-refl, IsKeyed}
use tenant_billing_service.App.Isolation.{invoices-kept}
use tenant_billing_service.App.Keys.{same_keys, updated_keys}

-- The tables that a payment does not write.
abbrev Framed : Db → Db → Type 0
Framed db db' =
    (db'.businesses ≡ db.businesses)
    × (db'.api_keys ≡ db.api_keys)
    × (db'.customers ≡ db.customers)
    × (db'.webhook_endpoints ≡ db.webhook_endpoints)

module _ (w : World) (d : Draws) (business : Business) (i : ℕ) (loaded : Invoice) where
  settle-Framed :
      (a : PaymentAttempt) (outcome : ChargeOutcome) (s : Session)
      → let s' = (settle w d business i loaded a outcome s).1 in
        (s'.committed ≡ s.committed) × Framed s.working s'.working
  unfolding settle settle_succeeded settle_declined save_attempt set_invoice_state enqueue_event
  settle-Framed a (failed_with e) s = ground arith
  settle-Framed a (charged r) s = ground arith
  settle-Framed a raised s = ground arith

  resolve_at :
      (a : PaymentAttempt) (outcome : ChargeOutcome) (db : Db) (sent : List PspRequest)
      (rows : List PaymentAttempt)
      → attempts_by_id a.id db ≡ rows
      → Framed db (resolve_payment w d business i loaded a outcome (clean db sent)).1.committed
  unfolding resolve_payment
  resolve_at a raised db sent rows found = (refl, refl, refl, refl)
  resolve_at a outcome db sent [] found = ground arith
  resolve_at a outcome db sent (x ∷ y ∷ rows) found = ground arith
  resolve_at a outcome db sent (current ∷ []) found =
      let (same, frame) = settle-Framed current outcome (clean db sent) in
      elim (Result-cases (settle w d business i loaded current outcome (clean db sent)).0) [
        | inl (_, done) ↦ ground arith
        | inr (e, failed) ↦ ground arith
      ]

  resolve_payment-Framed :
      (a : PaymentAttempt) (outcome : ChargeOutcome) (db : Db) (sent : List PspRequest)
      → Framed db (resolve_payment w d business i loaded a outcome (clean db sent)).1.committed
  resolve_payment-Framed a outcome db sent =
      resolve_at a outcome db sent (attempts_by_id a.id db) refl

module _ (business : Business) (w : World) (d : Draws) (i : ℕ) (db : Db) (keyed : IsKeyed db)
    (a : PaymentAttempt) (invoice : Invoice) (outcome : ChargeOutcome)
    (sent : List PspRequest) where
  abbrev resolved : Db
  resolved =
      (resolve_payment w d business i invoice a outcome
        (clean (record db { payment_attempts = db.payment_attempts ++ a ∷ [] }) sent)).1.committed

  resolved-Effect :
      Effect a.id i
        (d.clock 1)
        (record db { payment_attempts = db.payment_attempts ++ a ∷ [] })
        resolved
  resolved-Effect =
      resolve_payment-Effect w d business i invoice a
        (record db { payment_attempts = db.payment_attempts ++ a ∷ [] }) sent outcome

  resolved-Framed : Framed db resolved
  resolved-Framed =
      resolve_payment-Framed w d business i invoice a outcome
        (record db { payment_attempts = db.payment_attempts ++ a ∷ [] }) sent

  pub resolved-IsKeyed : IsKeyed resolved
  resolved-IsKeyed =
      let (businesses, keys, customers, endpoints) = resolved-Framed in
      elim resolved-Effect [
        | untouched e ↦ rw e (same_keys business db keyed _ refl refl)
        | unknown e attempts invoices ↦ same_keys business db keyed resolved invoices endpoints
        | declined r attempts invoices ↦ same_keys business db keyed resolved invoices endpoints
        | settled r attempts invoices ↦
            updated_keys business db keyed resolved (has_invoice_id i)
              (λ row. record row { state = paid; updated_at = d.clock 1 }) (λ x. refl) invoices
              endpoints
      ]

  resolved-Untouched :
      (o : ℕ)
      → (business.id == o) ≡ false
      → find_invoices business.id i db ≡ invoice ∷ []
      → Untouched o db resolved
  resolved-Untouched o other found =
      let (businesses, keys, customers, endpoints) = resolved-Framed in
      record {
        businesses = businesses;
        api_keys = keys;
        customers = rw customers refl;
        invoices = elim resolved-Effect [
          | untouched e ↦ rw e refl
          | unknown e attempts invoices ↦ rw invoices refl
          | declined r attempts invoices ↦ rw invoices refl
          | settled r attempts invoices ↦ rw invoices (
              invoices-kept o business other db keyed i invoice
                (λ row. record row { state = paid; updated_at = d.clock 1 }) found (λ y. refl))
        ];
        webhook_endpoints = rw endpoints refl;
      }

module _ (business : Business) (w : World) (d : Draws) (i : ℕ) (token key : String) (db : Db)
    (keyed : IsKeyed db) where
  pub process_payment-Untouched :
      (o : ℕ)
      → (business.id == o) ≡ false
      → Untouched o db (process_payment w d business i token key (open_session db)).1.committed
  process_payment-Untouched o other =
      process_payment-holds business w d i token key db (Untouched o db) (Untouched-refl o db)
        (λ a invoice outcome sent found.
          resolved-Untouched business w d i db keyed a invoice outcome sent o other found)

  pub process_payment-IsKeyed :
      IsKeyed (process_payment w d business i token key (open_session db)).1.committed
  process_payment-IsKeyed =
      process_payment-holds business w d i token key db IsKeyed keyed
        (λ a invoice outcome sent found.
          resolved-IsKeyed business w d i db keyed a invoice outcome sent)
