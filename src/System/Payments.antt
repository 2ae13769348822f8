-- ===== src/System/Payments.antt =====
-- What a payment commits, in the tables that the invariant speaks of.
use mathlib.Core.Path.{sym, subst}
use tenant_billing_service.Base.{
  ℕ, ◌≡◌, refl, ◌⊎◌, inl, inr, Bool, true, false, List, [], ◌∷◌, ◌++◌, arith, Bool-cases,
}
use tenant_billing_service.Errors.{Result-cases}
use tenant_billing_service.Model.Invoice.{Invoice}
use tenant_billing_service.Model.Payment.{PaymentAttempt}
use tenant_billing_service.Model.Webhook.{WebhookDelivery}
use tenant_billing_service.Model.Tenant.{Business}
use tenant_billing_service.Model.Db.{Db}
use tenant_billing_service.Session.{Session, PspRequest, clean}
use tenant_billing_service.World.{World, Draws}
use tenant_billing_service.Outbox.{active_endpoints, new_deliveries, enqueue_event}
use tenant_billing_service.Psp.{
  is_succeeded, ChargeOutcome, charged, failed_with, raised, PspChargeResult,
}
use tenant_billing_service.Payment.Attempts.{save_attempt, attempts_by_id}
use tenant_billing_service.Payment.Resolve.{
  resolve_payment, settle, settle_succeeded, settle_declined, set_invoice_state, delivery_ids,
  paid_payload, failed_payload,
}
use tenant_billing_service.System.Changes.{Enqueued, unchanged, enqueued}

-- What the second transaction may do to the tables that the invariant speaks of, beside invoices.
abbrev pub Rest : Db → Db → Type 0
Rest db db' =
    (db'.invoice_line_items ≡ db.invoice_line_items)
    × (db'.customers ≡ db.customers)
    × Enqueued db.webhook_deliveries db'.webhook_deliveries

Rest-refl : (db : Db) → Rest db db
Rest-refl db = (refl, refl, unchanged refl)

module _ (w : World) (d : Draws) (business : Business) (i : ℕ) (loaded : Invoice) where
  -- The second transaction up to its commit: line items stay, and the outbox gets new rows at most.
  settle-items :
      (a : PaymentAttempt) (outcome : ChargeOutcome) (s : Session)
      → let s' = (settle w d business i loaded a outcome s).1 in
        (s'.committed ≡ s.committed)
        × (s'.working.invoice_line_items ≡ s.working.invoice_line_items)
        × (s'.working.customers ≡ s.working.customers)
  unfolding settle settle_succeeded settle_declined save_attempt set_invoice_state enqueue_event
  settle-items a (failed_with e) s = ground arith
  settle-items a (charged r) s = ground arith
  settle-items a raised s = ground arith

  abbrev rows_for : Session → PaymentAttempt → PspChargeResult → Bool → List WebhookDelivery
  rows_for s a r true =
      new_deliveries (delivery_ids d) 0 (d.clock 1) "invoice.paid"
        (paid_payload i a.amount_cents r.psp_ref) (active_endpoints business.id s.working)
  rows_for s a r false =
      new_deliveries (delivery_ids d) 0 (d.clock 1) "invoice.payment_failed"
        (failed_payload i a.amount_cents r.code) (active_endpoints business.id s.working)

  succeeded-outbox :
      (a : PaymentAttempt) (r : PspChargeResult) (s : Session)
      → let s' = (settle_succeeded w d business i loaded a r s).1 in
        (s'.working.webhook_deliveries ≡ s.working.webhook_deliveries)
        ⊎ (s'.working.webhook_deliveries ≡ s.working.webhook_deliveries ++ rows_for s a r true)
  unfolding settle_succeeded save_attempt set_invoice_state enqueue_event active_endpoints
  succeeded-outbox a r s = ground arith

  declined-outbox :
      (a : PaymentAttempt) (r : PspChargeResult) (s : Session)
      → let s' = (settle_declined d business i a r s).1 in
        (s'.working.webhook_deliveries ≡ s.working.webhook_deliveries)
        ⊎ (s'.working.webhook_deliveries ≡ s.working.webhook_deliveries ++ rows_for s a r false)
  unfolding settle_declined save_attempt enqueue_event active_endpoints
  declined-outbox a r s = ground arith

  charged-Enqueued :
      (a : PaymentAttempt) (r : PspChargeResult) (s : Session)
      → Enqueued s.working.webhook_deliveries
          (settle w d business i loaded a (charged r) s).1.working.webhook_deliveries
  unfolding settle
  charged-Enqueued a r s = elim (Bool-cases (is_succeeded r.status)) [
    | inl yes_ ↦
        rw yes_
          (elim (succeeded-outbox a r s) [ inl e ↦ unchanged e | inr e ↦ enqueued _ _ _ _ _ e ])
    | inr no_ ↦
        rw no_ (elim (declined-outbox a r s) [ inl e ↦ unchanged e | inr e ↦ enqueued _ _ _ _ _ e ])
  ]

  settle-Enqueued :
      (a : PaymentAttempt) (outcome : ChargeOutcome) (s : Session)
      → Enqueued s.working.webhook_deliveries
          (settle w d business i loaded a outcome s).1.working.webhook_deliveries
  unfolding settle save_attempt
  settle-Enqueued a (failed_with e) s = unchanged refl
  settle-Enqueued a (charged r) s = charged-Enqueued a r s
  settle-Enqueued a raised s = unchanged refl

  committed_after :
      (a : PaymentAttempt) (outcome : ChargeOutcome) (db : Db) (sent : List PspRequest)
      (rows : List PaymentAttempt)
      → attempts_by_id a.id db ≡ rows
      → ((resolve_payment w d business i loaded a outcome (clean db sent)).1.committed ≡ db)
        ⊎ ((current : PaymentAttempt) × ((resolve_payment w d business i loaded a outcome
                (clean db sent)).1.committed
              ≡ (settle w d business i loaded current outcome (clean db sent)).1.working))
  unfolding resolve_payment
  committed_after a raised db sent rows found = inl refl
  committed_after a outcome db sent [] found = inl (ground arith)
  committed_after a outcome db sent (x ∷ y ∷ rows) found = inl (ground arith)
  committed_after a outcome db sent (current ∷ []) found =
      let (same, items, customers) = settle-items current outcome (clean db sent) in
      elim (Result-cases (settle w d business i loaded current outcome (clean db sent)).0) [
        | inl (_, done) ↦ inr (current, ground arith)
        | inr (e, failed) ↦ inl (ground arith)
      ]

  pub resolve_payment-Rest :
      (a : PaymentAttempt) (outcome : ChargeOutcome) (db : Db) (sent : List PspRequest)
      → Rest db (resolve_payment w d business i loaded a outcome (clean db sent)).1.committed
  resolve_payment-Rest a outcome db sent =
      elim (committed_after a outcome db sent (attempts_by_id a.id db) refl) [
        | inl same ↦ subst (Rest db) (sym same) (Rest-refl db)
        | inr (current, e) ↦
            let (_, items, customers) = settle-items current outcome (clean db sent) in
            subst (Rest db) (sym e)
              (items, customers, settle-Enqueued current outcome (clean db sent))
      ]
