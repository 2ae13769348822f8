-- ===== src/Worker.antt =====
-- app/workers/webhook_worker.py: one poll of the outbox, and the delivery of one row.
pub mod Delivery
pub mod Retry
pub mod Poll
pub mod Request
pub mod Moves
pub mod Runs
pub mod Policy
pub mod Measure
pub mod Drain
pub mod Rounds
pub mod Loop
pub mod Overlap
pub mod Delivers
use tenant_billing_service.Base.{
  ℕ, zero, suc, String, Bool, true, false, not, ◌&&◌, Option, none, some, List, [], ◌∷◌, ◌==◌, leb,
  select, update_where, sort_by, take, if◌then◌else◌,
}
use tenant_billing_service.Model.Webhook.{WebhookDelivery, WebhookDeliveryStatus, WebhookEndpoint}
use tenant_billing_service.Model.Db.{Db}
use tenant_billing_service.Worker.Delivery.{PostOutcome, deliver}

abbrev pub poll_limit : ℕ
poll_limit = 10

abbrev pub is_waiting : WebhookDeliveryStatus → Bool
is_waiting WebhookDeliveryStatus.pending = true
is_waiting _ = false

-- `next_attempt_at <= now`; a comparison with NULL is not true.
abbrev pub is_past : ℕ → Option ℕ → Bool
is_past now none = false
is_past now (some t) = leb t now

abbrev pub is_due : ℕ → WebhookDelivery → Bool
is_due now row = is_waiting row.status && is_past now row.next_attempt_at

abbrev pub time_of : Option ℕ → ℕ
time_of none = 0
time_of (some t) = t

-- `order_by(next_attempt_at)`
abbrev pub is_earlier : WebhookDelivery → WebhookDelivery → Bool
is_earlier x y = leb (time_of x.next_attempt_at) (time_of y.next_attempt_at)

-- The rows of the SELECT ... FOR UPDATE SKIP LOCKED; `locked` says which rows other workers hold.
unfoldable pub claim : ℕ → (WebhookDelivery → Bool) → Db → List WebhookDelivery
claim now locked db =
    take poll_limit (
      sort_by is_earlier (select (λ row. is_due now row && not (locked row)) db.webhook_deliveries))

abbrev pub has_delivery_id : ℕ → WebhookDelivery → Bool
has_delivery_id id row = row.id == id

abbrev pub write_delivery : WebhookDelivery → Db → Db
write_delivery row db = record db {
  webhook_deliveries = update_where (has_delivery_id row.id) (λ _. row) db.webhook_deliveries;
}

-- The loop of `_poll`; the n-th row is answered at the n-th reading of the clock.
unfoldable pub deliver_each :
    (WebhookEndpoint → WebhookDelivery → PostOutcome) → (ℕ → ℕ) → ℕ → List WebhookDelivery → Db → Db
deliver_each answer clock n [] db = db
deliver_each answer clock n (row ∷ rows) db =
    deliver_each answer clock (suc n) rows
      (write_delivery (deliver answer (clock n) db.webhook_endpoints row) db)

-- `_poll`, in one transaction.
unfoldable pub poll :
    (WebhookEndpoint → WebhookDelivery → PostOutcome) → (ℕ → ℕ) → (WebhookDelivery → Bool) → Db → Db
poll answer clock locked db = deliver_each answer clock 1 (claim (clock 0) locked db) db
