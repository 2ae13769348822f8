-- ===== src/Payment/Answers.antt =====
-- What a payment comes to for each answer of the PSP.
use tenant_billing_service.Base.{
  ℕ, ◌≡◌, ◌≢◌, refl, ◌∙◌, true, false, String, some, none, Option, List, [], ◌∷◌, ◌++◌, leb, ◌==◌,
  update_where,
}
use tenant_billing_service.Errors.{ok}
use tenant_billing_service.Model.Payment.{PaymentAttempt, PaymentStatus, pending, succeeded, failed}
use tenant_billing_service.Model.Invoice.{Invoice, paid}
use tenant_billing_service.Model.Tenant.{Business}
use tenant_billing_service.Model.Webhook.{WebhookDelivery, uuid, int}
use tenant_billing_service.Model.Db.{Db}
use tenant_billing_service.Session.{open_session, clean}
use tenant_billing_service.World.{World, Draws, PspBody, response}
use tenant_billing_service.Psp.{PspChargeResult, read_outcome, charged, failed_with}
use tenant_billing_service.Outbox.{new_deliveries, active_endpoints}
use tenant_billing_service.Payment.{process_payment}
use tenant_billing_service.Payment.Attempts.{fits_text}
use tenant_billing_service.Payment.Start.{hash_request_body, new_attempt}
use tenant_billing_service.Payment.Resolve.{
  invoices_by_id, delivery_ids, paid_payload, failed_payload, unresolved, paid_by, declined_by,
}
use tenant_billing_service.Payment.Results.{
  resolve_payment-unknown, resolve_payment-declined, resolve_payment-succeeded,
}
use tenant_billing_service.Payment.Promises.{
  json_text, FansOut, optional-json, fans_out, HasCode, or_else-code, not_succeeded, Unclear,
  read-Unclear,
}
use tenant_billing_service.Payment.Whole.{
  Goes, charge_of, attempt, begun_db, fetched, saved, answers,
}

module _ (w : World) (d : Draws) (i : ℕ) (token key : String) (invoice : Invoice) where
  -- The row of a payment, from what the PSP has said.
  abbrev pub row_of : PaymentStatus → Option String → Option String → PaymentAttempt
  row_of status psp_ref failure_code = record {
    id = d.uuid 0;
    invoice_id = i;
    idempotency_key = key;
    request_hash = hash_request_body w token;
    status = status;
    amount_cents = invoice.total_cents;
    card_token = token;
    psp_ref = psp_ref;
    failure_code = failure_code;
    created_at = d.clock 0;
    updated_at = d.clock 1;
  }

module _ (w : World) (d : Draws) (business : Business) (i : ℕ) (token key : String) (db : Db)
    (invoice : Invoice) (goes : Goes w d business i token key db invoice) where
  abbrev a : PaymentAttempt
  a = attempt w d business i token key db invoice goes

  abbrev db1 : Db
  db1 = begun_db w d business i token key db invoice goes

  -- If nothing stands in the way of a payment and the PSP client times out, has no connection, or
  -- gets a status of 400 or more, then `process_payment` sends the PSP one request with the token,
  -- the invoice's total and the key, and answers with a new attempt that is pending, with the code
  -- "psp_timeout" for the timeout and "psp_unavailable" for the others; that attempt is committed,
  -- and nothing else: the invoice stays open and no event is written.
  pub process_payment-Unclear :
      (code : String)
      → Unclear (w.post [] (charge_of token key invoice)) code
      → let x = row_of w d i token key invoice pending none (some code) in
        process_payment w d business i token key (open_session db) ≡ (
          ok (x, false),
          clean
              (record db { payment_attempts = db.payment_attempts ++ x ∷ [] })
              (charge_of token key invoice ∷ []),
        )
  unfolding new_attempt
  process_payment-Unclear code unclear =
      let (e, read, named) = read-Unclear (w.post [] (charge_of token key invoice)) code unclear in
      let x = row_of w d i token key invoice pending none (some code) in
      answers w d business i token key db invoice goes (failed_with e) x
        (record db { payment_attempts = db.payment_attempts ++ x ∷ [] }) read
        (resolve_payment-unknown w d business i invoice a db1 (charge_of token key invoice ∷ []) a
            (fetched w d business i token key db invoice goes) e
          ∙ rw (saved w d business i token key db invoice goes (unresolved e (d.clock 1)), named)
              refl)

  module _ (status_code : ℕ) (body : PspBody) (status code : Option String)
      (answer : w.post [] (charge_of token key invoice) ≡ response status_code (some body))
      (fine : leb 400 status_code ≡ false) (has_status : body.status ≡ some status)
      (has_code : HasCode body code) where
    abbrev result : PspChargeResult
    result = record { status = status; psp_ref = body.psp_ref; code = code }

    read-charged : read_outcome (w.post [] (charge_of token key invoice)) ≡ charged result
    unfolding read_outcome
    read-charged = rw (answer, fine, has_status, or_else-code body code has_code) refl

    -- If nothing stands in the way of a payment and the PSP answers, below 400, with another status
    -- than "succeeded" (null, for one), and with a code that fits its column or with none, then
    -- `process_payment` answers with a new attempt that is failed with that code. Committed are that
    -- attempt and one new row "invoice.payment_failed" in the outbox for each active endpoint of
    -- the business, and nothing else: the invoice stays open.
    pub process_payment-declined :
        status ≢ some "succeeded"
        → fits_text 50 code ≡ true
        → let x = row_of w d i token key invoice failed none code in
          (rows : List WebhookDelivery) × (process_payment w d business i token key
              (open_session db)
            ≡ (
              ok (x, false),
              clean
                  (record db {
                    payment_attempts = db.payment_attempts ++ x ∷ [];
                    webhook_deliveries = db.webhook_deliveries ++ rows;
                  })
                  (charge_of token key invoice ∷ []),
            ))
          × FansOut business.id
              (d.clock 1)
              "invoice.payment_failed"
              (("invoice_id", uuid i)
                ∷ ("failure_code", json_text code)
                ∷ ("amount_cents", int invoice.total_cents)
                ∷ [])
              db
              rows
    unfolding new_attempt active_endpoints
    process_payment-declined declines fit =
        let x = row_of w d i token key invoice failed none code in
        let payload = failed_payload i invoice.total_cents code in
        let rows =
          new_deliveries (delivery_ids d) 0 (d.clock 1) "invoice.payment_failed" payload
            (active_endpoints business.id db) in
        (
          rows,
          answers w d business i token key db invoice goes (charged result) x
              (record db {
                payment_attempts = db.payment_attempts ++ x ∷ [];
                webhook_deliveries = db.webhook_deliveries ++ rows;
              })
              read-charged
              (resolve_payment-declined w d business i invoice a db1
                  (charge_of token key invoice ∷ []) a
                  (fetched w d business i token key db invoice goes) result
                  (not_succeeded status declines) fit
                ∙ rw
                    (saved w d business i token key db invoice goes
                      (declined_by result (d.clock 1)))
                    refl),
          fans_out (delivery_ids d) business.id (d.clock 1) "invoice.payment_failed" payload _ db
              (rw (optional-json code) refl),
        )

    -- If nothing stands in the way of a payment, the session reads the invoice's row once more as
    -- it stands and the PSP answers, below 400, with the status "succeeded" and a reference that
    -- fits its column, then `process_payment` sends one request with the token, the invoice's total
    -- and the key, and answers with a new attempt that is succeeded with that reference. Committed
    -- are, at once, that attempt, the state `paid` of the invoice, and one new row "invoice.paid"
    -- in the outbox for each active endpoint of the business, and nothing else.
    pub process_payment-succeeded :
        status ≡ some "succeeded"
        → fits_text 100 body.psp_ref ≡ true
        → invoices_by_id i db ≡ invoice ∷ []
        → w.reload invoice invoice ≡ invoice
        → let x = row_of w d i token key invoice succeeded body.psp_ref none in
          (rows : List WebhookDelivery) × (process_payment w d business i token key
              (open_session db)
            ≡ (
              ok (x, false),
              clean
                  (record db {
                    payment_attempts = db.payment_attempts ++ x ∷ [];
                    invoices =
                        update_where
                          (λ (y : Invoice). y.id == i)
                          (λ y. record y { state = paid; updated_at = d.clock 1 })
                          db.invoices;
                    webhook_deliveries = db.webhook_deliveries ++ rows;
                  })
                  (charge_of token key invoice ∷ []),
            ))
          × FansOut business.id
              (d.clock 1)
              "invoice.paid"
              (("invoice_id", uuid i)
                ∷ ("amount_cents", int invoice.total_cents)
                ∷ ("psp_ref", json_text body.psp_ref)
                ∷ [])
              db
              rows
    unfolding new_attempt active_endpoints invoices_by_id
    process_payment-succeeded paid_ fit by_id same =
        let x = row_of w d i token key invoice succeeded body.psp_ref none in
        let payload = paid_payload i invoice.total_cents body.psp_ref in
        let rows =
          new_deliveries (delivery_ids d) 0 (d.clock 1) "invoice.paid" payload
            (active_endpoints business.id db) in
        (
          rows,
          answers w d business i token key db invoice goes (charged result) x
              (record db {
                payment_attempts = db.payment_attempts ++ x ∷ [];
                invoices =
                    update_where (λ (y : Invoice). y.id == i)
                      (λ y. record y { state = paid; updated_at = d.clock 1 }) db.invoices;
                webhook_deliveries = db.webhook_deliveries ++ rows;
              })
              read-charged
              (resolve_payment-succeeded w d business i invoice a db1
                  (charge_of token key invoice ∷ []) a
                  (fetched w d business i token key db invoice goes) result invoice (rw paid_ refl)
                  fit by_id (rw same goes.was_open)
                ∙ rw (saved w d business i token key db invoice goes (paid_by result (d.clock 1)))
                    refl),
          fans_out (delivery_ids d) business.id (d.clock 1) "invoice.paid" payload _ db
              (rw (optional-json body.psp_ref) refl),
        )
