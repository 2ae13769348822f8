-- ===== src/Payment/Effects.antt =====
-- The second transaction of a payment: what a PSP outcome makes of the committed tables.
use tenant_billing_service.Base.{
  ℕ, ◌≡◌, refl, ◌⊎◌, inl, inr, true, false, List, [], ◌∷◌, arith, ==_iff, select-head, update_where,
  Bool-cases,
}
use tenant_billing_service.Errors.{ok, err, AppError}
use tenant_billing_service.Model.Invoice.{Invoice, paid}
use tenant_billing_service.Model.Payment.{PaymentAttempt}
use tenant_billing_service.Model.Tenant.{Business}
use tenant_billing_service.Model.Db.{Db}
use tenant_billing_service.Session.{Session, PspRequest, clean}
use tenant_billing_service.World.{World, Draws}
use tenant_billing_service.Psp.{
  is_succeeded, PspError, PspChargeResult, ChargeOutcome, charged, failed_with, raised,
}
use tenant_billing_service.Outbox.{enqueue_event}
use tenant_billing_service.Payment.Attempts.{has_id, save_attempt, attempts_by_id}
use tenant_billing_service.Payment.Resolve.{
  resolve_payment, settle, settle_succeeded, settle_declined, set_invoice_state, has_invoice_id,
  unresolved, paid_by, declined_by,
}

-- The rows of two tables after the second transaction, by the branch that it took.
pub data Effect (id i now : ℕ) (db db' : Db) : Type 0 where
  untouched : db' ≡ db → Effect id i now db db'
  unknown :
      (e : PspError)
      → db'.payment_attempts ≡ update_where (has_id id) (unresolved e now) db.payment_attempts
      → db'.invoices ≡ db.invoices
      → Effect id i now db db'
  declined :
      (r : PspChargeResult)
      → db'.payment_attempts ≡ update_where (has_id id) (declined_by r now) db.payment_attempts
      → db'.invoices ≡ db.invoices
      → Effect id i now db db'
  settled :
      (r : PspChargeResult)
      → db'.payment_attempts ≡ update_where (has_id id) (paid_by r now) db.payment_attempts
      → db'.invoices
        ≡ update_where
            (has_invoice_id i)
            (λ row. record row { state = paid; updated_at = now })
            db.invoices
      → Effect id i now db db'

module _ (w : World) (d : Draws) (business : Business) (i : ℕ) (loaded : Invoice) where
  -- The branch "succeeded" leaves nothing committed; if it does not raise, the tables of the
  -- transaction have the paid attempt and the paid invoice.
  settle_succeeded-working :
      (a : PaymentAttempt) (r : PspChargeResult) (s : Session)
      → let (res, s') = settle_succeeded w d business i loaded a r s in
        (s'.committed ≡ s.committed)
        × (((e : AppError) × (res ≡ err e))
            ⊎ ((res ≡ ok tt)
                × (s'.working.payment_attempts
                    ≡ update_where (has_id a.id) (paid_by r (d.clock 1)) s.working.payment_attempts)
                × (s'.working.invoices
                    ≡ update_where
                        (has_invoice_id i)
                        (λ row. record row { state = paid; updated_at = d.clock 1 })
                        s.working.invoices)))
  unfolding settle_succeeded save_attempt set_invoice_state enqueue_event
  settle_succeeded-working a r s = ground arith

  settle_declined-working :
      (a : PaymentAttempt) (r : PspChargeResult) (s : Session)
      → let (res, s') = settle_declined d business i a r s in
        (s'.committed ≡ s.committed)
        × (((e : AppError) × (res ≡ err e))
            ⊎ ((res ≡ ok tt)
                × (s'.working.payment_attempts
                    ≡ update_where
                        (has_id a.id)
                        (declined_by r (d.clock 1))
                        s.working.payment_attempts)
                × (s'.working.invoices ≡ s.working.invoices)))
  unfolding settle_declined save_attempt enqueue_event
  settle_declined-working a r s = ground arith

module _ (w : World) (d : Draws) (business : Business) (i : ℕ) (loaded : Invoice)
    (a : PaymentAttempt) (db : Db) (sent : List PspRequest) where
  abbrev After : ChargeOutcome → Type 0
  After outcome =
      Effect a.id i (d.clock 1) db
        (resolve_payment w d business i loaded a outcome (clean db sent)).1.committed

  -- The attempt that is fetched again has the identifier by which it is fetched.
  fetched-id :
      (current : PaymentAttempt) (rows : List PaymentAttempt)
      → attempts_by_id a.id db ≡ current ∷ rows
      → current.id ≡ a.id
  unfolding attempts_by_id
  fetched-id current rows e =
      (==_iff current.id a.id).0 (select-head (has_id a.id) db.payment_attempts current rows e)

  module _ (current : PaymentAttempt) (fetched : attempts_by_id a.id db ≡ current ∷ []) where
    resolve_unknown : (e : PspError) → After (failed_with e)
    unfolding resolve_payment settle save_attempt
    resolve_unknown e = unknown e (ground (arith, fetched-id current [] fetched)) (ground arith)

    resolve_succeeded : (r : PspChargeResult) → is_succeeded r.status ≡ true → After (charged r)
    unfolding resolve_payment settle
    resolve_succeeded r yes_ =
        let (same, ends) =
          settle_succeeded-working w d business i loaded current r (clean db sent) in
        elim ends [
          | inl (e, failed) ↦ untouched (ground arith)
          | inr (done, attempts, invoices) ↦
              settled r (ground (arith, fetched-id current [] fetched)) (ground arith)
        ]

    resolve_declined : (r : PspChargeResult) → is_succeeded r.status ≡ false → After (charged r)
    unfolding resolve_payment settle
    resolve_declined r no_ =
        let (same, ends) =
          settle_declined-working w d business i loaded current r (clean db sent) in
        elim ends [
          | inl (e, failed) ↦ untouched (ground arith)
          | inr (done, attempts, invoices) ↦
              declined r (ground (arith, fetched-id current [] fetched)) (ground arith)
        ]

  resolve_fetched :
      (rows : List PaymentAttempt) (outcome : ChargeOutcome)
      → attempts_by_id a.id db ≡ rows
      → After outcome
  unfolding resolve_payment
  resolve_fetched rows raised e = untouched refl
  resolve_fetched [] (failed_with x) e = untouched (ground arith)
  resolve_fetched [] (charged r) e = untouched (ground arith)
  resolve_fetched (current ∷ []) (failed_with x) e = resolve_unknown current e x
  resolve_fetched (current ∷ []) (charged r) e = elim (Bool-cases (is_succeeded r.status)) [
    | inl t ↦ resolve_succeeded current e r t
    | inr f ↦ resolve_declined current e r f
  ]
  resolve_fetched (x ∷ y ∷ rest) (failed_with z) e = untouched (ground arith)
  resolve_fetched (x ∷ y ∷ rest) (charged r) e = untouched (ground arith)

  -- For any tables and any PSP outcome, the second transaction commits one of its three branches
  -- whole (unknown, declined, or succeeded with the invoice paid), or nothing.
  pub resolve_payment-Effect :
      (outcome : ChargeOutcome)
      → Effect a.id i
          (d.clock 1)
          db
          (resolve_payment w d business i loaded a outcome (clean db sent)).1.committed
  resolve_payment-Effect outcome = resolve_fetched (attempts_by_id a.id db) outcome refl
