-- ===== src/System/Invariant.antt =====
-- The invariant of the tables holds after any requests and polls.
use mathlib.Core.Path.{sym, subst}
use tenant_billing_service.Base.{ℕ, suc, ◌≡◌, refl, inl, inr, String, List, [], ◌∷◌, ◌++◌}
use tenant_billing_service.Model.Invoice.{Invoice, InvoiceState, paid}
use tenant_billing_service.Model.Payment.{PaymentAttempt}
use tenant_billing_service.Model.Webhook.{WebhookDelivery, WebhookEndpoint}
use tenant_billing_service.Model.Tenant.{Business}
use tenant_billing_service.Model.Db.{Db}
use tenant_billing_service.Session.{open_session, committed_by, clean, PspRequest}
use tenant_billing_service.World.{World, Draws}
use tenant_billing_service.Psp.{ChargeOutcome}
use tenant_billing_service.Payment.{process_payment}
use tenant_billing_service.Payment.Resolve.{resolve_payment, has_invoice_id}
use tenant_billing_service.Payment.Effects.{
  untouched, unknown, declined, settled, resolve_payment-Effect,
}
use tenant_billing_service.Customers.{create_customer}
use tenant_billing_service.Customers.Laws.{create_customer-IsUnique}
use tenant_billing_service.Invoices.{transition_invoice_state}
use tenant_billing_service.Invoices.Outcomes.{with_state, transition-cases}
use tenant_billing_service.Endpoints.{create_endpoint}
use tenant_billing_service.Routers.Webhooks.{delete_endpoint}
use tenant_billing_service.Worker.{deliver_each, write_delivery, claim, poll}
use tenant_billing_service.Worker.Delivery.{PostOutcome, deliver}
use tenant_billing_service.Worker.Poll.{poll-IsSound}
use tenant_billing_service.Worker.Runs.{Poll, write_poll, run_poll, transaction-commits}
use tenant_billing_service.App.Commits.{
  transition-frame, create_customer-committed_rows, create_endpoint-committed_rows,
  deactivate_endpoint-rows,
}
use tenant_billing_service.App.Keys.{
  transition-IsKeyed, create_customer-IsKeyed, create_endpoint-IsKeyed, delete_endpoint-IsKeyed,
}
use tenant_billing_service.Payment.Composed.{process_payment-holds}
use tenant_billing_service.App.Payments.{resolved-IsKeyed}
use tenant_billing_service.App.Serve.{handle-holds}
use tenant_billing_service.App.Safety.{Incoming, handle_one}
use tenant_billing_service.System.{Event, requested, polled, happen_all}
use tenant_billing_service.System.Stored.{IsStored, Updated, same, updated, IsStored-kept}
use tenant_billing_service.System.Changes.{transition-rest, Enqueued-IsSound}
use tenant_billing_service.System.Creation.{create_invoice-IsStored}
use tenant_billing_service.System.Payments.{resolve_payment-Rest}

module _ (business : Business) (db : Db) (stored : IsStored db) where
  transition-IsStored :
      (d : Draws) (i : ℕ) (t : InvoiceState)
      → IsStored (committed_by (transition_invoice_state d business i t) db)
  transition-IsStored d i t =
      let db' = committed_by (transition_invoice_state d business i t) db in
      let (b, k, customers, e) = transition-frame business db d i t in
      let (items, outbox) = transition-rest d business db i t in
      let invoices : Updated db.invoices db'.invoices =
        elim (transition-cases d business i t db).1 [
          | inl kept ↦ same kept
          | inr (x, found, allowed, set) ↦
              updated (has_invoice_id x.id) (with_state (d.clock 0) t) (λ y. refl) (λ y. refl) set
        ] in
      IsStored-kept db db' stored items (transition-IsKeyed business db stored.keys d i t)
        (rw customers stored.emails) invoices (rw outbox stored.outbox)

  create_customer-IsStored :
      (d : Draws) (name email : String)
      → IsStored (committed_by (create_customer d business name email) db)
  create_customer-IsStored d name email =
      let db' = committed_by (create_customer d business name email) db in
      let unique = create_customer-IsUnique d business name email db stored.emails in
      let keys = create_customer-IsKeyed business db stored.keys d name email in
      elim (create_customer-committed_rows business db d name email) [
        | inl unchanged ↦ rw unchanged stored
        | inr added ↦ rw added (
            IsStored-kept db _ stored refl (rw added at keys) (rw added at unique) (same refl)
              stored.outbox)
      ]

  create_endpoint-IsStored :
      (d : Draws) (url secret : String)
      → IsStored (committed_by (create_endpoint d business url secret) db)
  create_endpoint-IsStored d url secret =
      let keys = create_endpoint-IsKeyed business db stored.keys d url secret in
      elim (create_endpoint-committed_rows business db d url secret) [
        | inl unchanged ↦ rw unchanged stored
        | inr (added, _) ↦ rw added (
            IsStored-kept db _ stored refl (rw added at keys) stored.emails (same refl)
              stored.outbox)
      ]

  delete_endpoint-IsStored :
      (i : ℕ) → IsStored (delete_endpoint business i (open_session db)).1.committed
  delete_endpoint-IsStored i =
      let keys = delete_endpoint-IsKeyed business db stored.keys i in
      elim (deactivate_endpoint-rows business db i) [
        | inl unchanged ↦ rw unchanged stored
        | inr (x, found, set) ↦ rw set (
            IsStored-kept db _ stored refl (rw set at keys) stored.emails (same refl) stored.outbox)
      ]

  resolved-IsStored :
      (w : World) (d : Draws) (i : ℕ) (a : PaymentAttempt) (invoice : Invoice)
      (outcome : ChargeOutcome) (sent : List PspRequest)
      → IsStored
          (resolve_payment w d business i invoice a outcome (
            clean
              (record db { payment_attempts = db.payment_attempts ++ a ∷ [] })
              sent)).1.committed
  resolved-IsStored w d i a invoice outcome sent =
      let begun = record db { payment_attempts = db.payment_attempts ++ a ∷ [] } in
      let db' = (resolve_payment w d business i invoice a outcome (clean begun sent)).1.committed in
      let (items, customers, outbox) =
        resolve_payment-Rest w d business i invoice a outcome begun sent in
      let invoices : Updated db.invoices db'.invoices =
        elim (resolve_payment-Effect w d business i invoice a begun sent outcome) [
          | untouched e ↦ same (rw e refl)
          | unknown e attempts kept ↦ same kept
          | declined r attempts kept ↦ same kept
          | settled r attempts set ↦
              updated (has_invoice_id i)
                (λ row. record row { state = paid; updated_at = d.clock 1 }) (λ y. refl) (λ y. refl)
                set
        ] in
      IsStored-kept db db' stored items
        (resolved-IsKeyed business w d i db stored.keys a invoice outcome sent)
        (rw customers stored.emails) invoices
        (Enqueued-IsSound db.webhook_deliveries db'.webhook_deliveries outbox stored.outbox)

  process_payment-IsStored :
      (w : World) (d : Draws) (i : ℕ) (token key : String)
      → IsStored (process_payment w d business i token key (open_session db)).1.committed
  process_payment-IsStored w d i token key =
      process_payment-holds business w d i token key db IsStored stored
        (λ a invoice outcome sent found. resolved-IsStored w d i a invoice outcome sent)

request-IsStored :
    (app_name : String) (r : Incoming) (db : Db) → IsStored db → IsStored (handle_one app_name r db)
request-IsStored app_name r db stored =
    handle-holds app_name r.world r.draws r.secret db IsStored stored r.credentials r.request
      (λ business _. record {
        customer = create_customer-IsStored business db stored r.draws;
        invoice = create_invoice-IsStored r.draws business db stored;
        transition = transition-IsStored business db stored r.draws;
        payment = process_payment-IsStored business db stored r.world r.draws;
        endpoint = λ url. create_endpoint-IsStored business db stored r.draws url r.secret;
        deletion = delete_endpoint-IsStored business db stored;
      })

-- A poll writes no table but the outbox.
deliver_each-only :
    (answer : WebhookEndpoint → WebhookDelivery → PostOutcome) (clock : ℕ → ℕ) (n : ℕ)
    (rows : List WebhookDelivery) (db : Db)
    → deliver_each answer clock n rows db
      ≡ record db { webhook_deliveries = (deliver_each answer clock n rows db).webhook_deliveries }
unfolding deliver_each
deliver_each-only answer clock n [] db = refl
deliver_each-only answer clock n (row ∷ rows) db =
    deliver_each-only answer clock (suc n) rows
      (write_delivery (deliver answer (clock n) db.webhook_endpoints row) db)

write_poll-IsStored : (p : Poll) (db : Db) → IsStored db → IsStored (write_poll p db)
unfolding poll
write_poll-IsStored p db stored =
    let outbox = poll-IsSound p.answer p.clock p.locked db stored.outbox in
    subst IsStored (sym (deliver_each-only p.answer p.clock 1 (claim (p.clock 0) p.locked db) db)) (
      IsStored-kept db _ stored refl
        (record { of_invoices = stored.keys.of_invoices; of_endpoints = stored.keys.of_endpoints })
        stored.emails (same refl) outbox)

-- A poll that is rolled back leaves the tables.
poll-IsStored : (p : Poll) (db : Db) → IsStored db → IsStored (run_poll p db)
poll-IsStored p db stored = elim (transaction-commits p db) [
  | inl lost ↦ rw lost stored
  | inr kept ↦ rw kept (write_poll-IsStored p db stored)
]

-- If the tables are in order (keys and emails are unique, line items meet their constraints and have
-- an invoice, invoices have the total of their line items, outbox rows are sound), then they are
-- after any sequence of requests to the application, with any credentials and bodies, and polls of
-- the worker, whatever the PSP and the endpoints answer.
pub happen_all-IsStored :
    (app_name : String) (es : List Event) (db : Db)
    → IsStored db
    → IsStored (happen_all app_name es db)
happen_all-IsStored app_name [] db stored = stored
happen_all-IsStored app_name (requested r ∷ es) db stored =
    happen_all-IsStored app_name es (handle_one app_name r db)
      (request-IsStored app_name r db stored)
happen_all-IsStored app_name (polled p ∷ es) db stored =
    happen_all-IsStored app_name es (run_poll p db) (poll-IsStored p db stored)
