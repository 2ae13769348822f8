-- ===== src/Payment/Results.antt =====
-- The whole second transaction for each outcome of the PSP: what it returns and what it commits.
use tenant_billing_service.Base.{
  ℕ, ◌≡◌, ◌≢◌, refl, ap, true, false, List, [], ◌∷◌, ◌++◌, arith, ◌==◌, ==_iff, ==_refl, select,
  select-head, select-update, update_where,
}
use tenant_billing_service.Errors.{ok, err, invalid_state_transition}
use tenant_billing_service.Model.Payment.{PaymentAttempt}
use tenant_billing_service.Model.Invoice.{Invoice, paid, open_}
use tenant_billing_service.Model.Tenant.{Business}
use tenant_billing_service.Model.Db.{Db}
use tenant_billing_service.Session.{PspRequest, clean}
use tenant_billing_service.World.{World, Draws}
use tenant_billing_service.Machine.{assert_transition_allowed}
use tenant_billing_service.Machine.Laws.{refusal, not_open_refused}
use tenant_billing_service.Psp.{is_succeeded, PspError, PspChargeResult, charged, failed_with}
use tenant_billing_service.Outbox.{enqueue_event, active_endpoints, new_deliveries}
use tenant_billing_service.Payment.Attempts.{has_id, attempts_by_id, save_attempt, fits_text}
use tenant_billing_service.Payment.Resolve.{
  resolve_payment, settle, settle_succeeded, settle_declined, set_invoice_state, invoices_by_id,
  has_invoice_id, unresolved, paid_by, declined_by, delivery_ids, paid_payload, failed_payload,
}

module _ (id : ℕ) (db : Db) (current : PaymentAttempt)
    (fetched : attempts_by_id id db ≡ current ∷ []) where
  pub fetched-id : current.id ≡ id
  unfolding attempts_by_id
  fetched-id =
      (==_iff current.id id).0 (select-head (has_id id) db.payment_attempts current [] fetched)

  -- After an UPDATE by the identifier the row is found again, changed.
  pub refetched :
      (f : PaymentAttempt → PaymentAttempt)
      → ((x : PaymentAttempt) → (f x).id ≡ x.id)
      → select (has_id id) (update_where (has_id id) f db.payment_attempts) ≡ f current ∷ []
  unfolding attempts_by_id
  refetched f keeps = rw (
    select-update (has_id id) (has_id id) f (λ x. ap (λ n. n == id) (keeps x)) db.payment_attempts,
    fetched,
    fetched-id,
    ==_refl id,
  )

-- So is an invoice.
pub invoice-refetched :
    (i : ℕ) (db : Db) (row : Invoice) (f : Invoice → Invoice) (rest : Db)
    → ((x : Invoice) → (f x).id ≡ x.id)
    → invoices_by_id i db ≡ row ∷ []
    → rest.invoices ≡ update_where (has_invoice_id i) f db.invoices
    → invoices_by_id i rest ≡ f row ∷ []
unfolding invoices_by_id
invoice-refetched i db row f rest keeps found e = rw (
  e,
  select-update (has_invoice_id i) (has_invoice_id i) f (λ x. ap (λ n. n == i) (keeps x))
      db.invoices,
  found,
  (==_iff row.id i).0 (select-head (has_invoice_id i) db.invoices row [] found),
  ==_refl i,
)

module _ (w : World) (d : Draws) (business : Business) (i : ℕ) (loaded : Invoice)
    (a : PaymentAttempt) (db : Db) (sent : List PspRequest) (current : PaymentAttempt)
    (fetched : attempts_by_id a.id db ≡ current ∷ []) where
  abbrev pub now : ℕ
  now = d.clock 1

  abbrev pub attempts_with : (PaymentAttempt → PaymentAttempt) → List PaymentAttempt
  attempts_with f = update_where (has_id a.id) f db.payment_attempts

  -- If the attempt stands once in the tables and the PSP client raised a timeout or a network
  -- error, then the second transaction commits the failure code and the time on the attempt, which
  -- keeps its status, and changes nothing else.
  pub resolve_payment-unknown :
      (e : PspError)
      → resolve_payment w d business i loaded a (failed_with e) (clean db sent) ≡ (
        ok (unresolved e now current),
        clean (record db { payment_attempts = attempts_with (unresolved e now) }) sent,
      )
  unfolding resolve_payment settle save_attempt attempts_by_id
  resolve_payment-unknown e = ground (
    arith,
    fetched-id a.id db current fetched,
    refetched a.id db current fetched (unresolved e now) (λ x. refl),
  )

  -- If the attempt stands once in the tables and the PSP's status is not "succeeded", with a code
  -- that fits its column, then the second transaction marks the attempt failed with that code,
  -- leaves the invoices, and adds one "invoice.payment_failed" row to the outbox for each active
  -- endpoint of the business.
  pub resolve_payment-declined :
      (r : PspChargeResult)
      → is_succeeded r.status ≡ false
      → fits_text 50 r.code ≡ true
      → resolve_payment w d business i loaded a (charged r) (clean db sent) ≡ (
        ok (declined_by r now current),
        clean
            (record db {
              payment_attempts = attempts_with (declined_by r now);
              webhook_deliveries =
                  db.webhook_deliveries
                  ++ new_deliveries
                      (delivery_ids d)
                      0
                      now
                      "invoice.payment_failed"
                      (failed_payload i current.amount_cents r.code)
                      (active_endpoints business.id db);
            })
            sent,
      )
  unfolding resolve_payment settle settle_declined save_attempt attempts_by_id enqueue_event
      active_endpoints
  resolve_payment-declined r no_ fit = ground (
    arith,
    fetched-id a.id db current fetched,
    refetched a.id db current fetched (declined_by r now) (λ x. refl),
  )

  -- If the attempt and the invoice stand once in the tables, the PSP's status is "succeeded" with
  -- a reference that fits its column, and the state that the session reads for the invoice is
  -- `open`, then the second transaction commits all of this at once: the attempt succeeded with
  -- the reference, the invoice paid, and one "invoice.paid" row for each active endpoint of the
  -- business.
  pub resolve_payment-succeeded :
      (r : PspChargeResult) (row : Invoice)
      → is_succeeded r.status ≡ true
      → fits_text 100 r.psp_ref ≡ true
      → invoices_by_id i db ≡ row ∷ []
      → (w.reload loaded row).state ≡ open_
      → resolve_payment w d business i loaded a (charged r) (clean db sent) ≡ (
        ok (paid_by r now current),
        clean
            (record db {
              payment_attempts = attempts_with (paid_by r now);
              invoices =
                  update_where
                    (has_invoice_id i)
                    (λ x. record x { state = paid; updated_at = now })
                    db.invoices;
              webhook_deliveries =
                  db.webhook_deliveries
                  ++ new_deliveries
                      (delivery_ids d)
                      0
                      now
                      "invoice.paid"
                      (paid_payload i current.amount_cents r.psp_ref)
                      (active_endpoints business.id db);
            })
            sent,
      )
  unfolding resolve_payment settle settle_succeeded save_attempt attempts_by_id enqueue_event
      active_endpoints invoices_by_id set_invoice_state assert_transition_allowed
  resolve_payment-succeeded r row yes_ fit found is_open = ground (
    arith,
    fetched-id a.id db current fetched,
    refetched a.id db current fetched (paid_by r now) (λ x. refl),
  )

  -- If the attempt and the invoice stand once in the tables and the PSP has taken the money, but
  -- the state that the session reads for the invoice is not `open`, then the second transaction
  -- raises the invalid transition and commits nothing: the attempt stays as it was.
  pub resolve_payment-refused :
      (r : PspChargeResult) (row : Invoice)
      → is_succeeded r.status ≡ true
      → fits_text 100 r.psp_ref ≡ true
      → invoices_by_id i db ≡ row ∷ []
      → (w.reload loaded row).state ≢ open_
      → let (res, s) = resolve_payment w d business i loaded a (charged r) (clean db sent) in
        (res ≡ err (invalid_state_transition (refusal (w.reload loaded row).state paid)))
        × (s.committed ≡ db)
  unfolding resolve_payment settle settle_succeeded save_attempt invoices_by_id
  resolve_payment-refused r row yes_ fit found closed = ground (
    arith,
    fetched-id a.id db current fetched,
    not_open_refused (w.reload loaded row).state closed,
  )

  -- If the session gives back the invoice as it loaded it before the PSP call, when it was open,
  -- then a successful charge makes the invoice paid whatever its row has become since: the second
  -- check of the state does not see the change.
  pub resolve_payment-stale :
      (r : PspChargeResult) (row : Invoice)
      → is_succeeded r.status ≡ true
      → fits_text 100 r.psp_ref ≡ true
      → invoices_by_id i db ≡ row ∷ []
      → w.reload loaded row ≡ loaded
      → loaded.state ≡ open_
      → let (res, s) = resolve_payment w d business i loaded a (charged r) (clean db sent) in
        (res ≡ ok (paid_by r now current))
        × (invoices_by_id i s.committed ≡ record row { state = paid; updated_at = now } ∷ [])
  resolve_payment-stale r row yes_ fit found stale was_open =
      let done = resolve_payment-succeeded r row yes_ fit found (rw stale was_open) in
      (
        rw done refl,
        rw done (
            invoice-refetched i db row (λ x. record x { state = paid; updated_at = now }) _
              (λ x. refl) found refl),
      )
