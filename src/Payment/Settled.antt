-- ===== src/Payment/Settled.antt =====
-- The four ways in which the second transaction of a payment can end.
use tenant_billing_service.Base.{
  ℕ, ◌≡◌, ◌≢◌, false, String, some, List, [], ◌∷◌, ◌++◌, ◌==◌, update_where,
}
use tenant_billing_service.Errors.{Result, ok, err, AppError}
use tenant_billing_service.Model.Invoice.{Invoice, open_, paid}
use tenant_billing_service.Model.Payment.{PaymentAttempt, succeeded, failed}
use tenant_billing_service.Model.Tenant.{Business}
use tenant_billing_service.Model.Webhook.{WebhookDelivery, uuid, int}
use tenant_billing_service.Model.Db.{Db}
use tenant_billing_service.World.{World, Draws}
use tenant_billing_service.Psp.{
  PspError, psp_timeout, psp_network_error, PspChargeResult, ChargeOutcome, charged, failed_with,
  raised,
}
use tenant_billing_service.Payment.Attempts.{attempts_by_id, fits_text}
use tenant_billing_service.Payment.Resolve.{invoices_by_id}
use tenant_billing_service.Payment.Promises.{FansOut, json_text}

-- The code that a PSPError is stored with.
abbrev pub code_of : PspError → String
code_of psp_timeout = "psp_timeout"
code_of psp_network_error = "psp_unavailable"

module _ (w : World) (d : Draws) (business : Business) (i : ℕ) (loaded : Invoice) (id : ℕ)
    (outcome : ChargeOutcome) (db : Db) where
  -- Why a transaction is rolled back.
  pub data Refuses : Type 0 where
    no_answer : outcome ≡ raised → Refuses
    no_attempt : ((x : PaymentAttempt) → attempts_by_id id db ≢ x ∷ []) → Refuses
    wide_code :
        (p : PspChargeResult)
        → outcome ≡ charged p
        → p.status ≢ some "succeeded"
        → fits_text 50 p.code ≡ false
        → Refuses
    wide_reference :
        (p : PspChargeResult)
        → outcome ≡ charged p
        → p.status ≡ some "succeeded"
        → fits_text 100 p.psp_ref ≡ false
        → Refuses
    no_invoice :
        (p : PspChargeResult)
        → outcome ≡ charged p
        → p.status ≡ some "succeeded"
        → ((x : Invoice) → invoices_by_id i db ≢ x ∷ [])
        → Refuses
    not_open :
        (p : PspChargeResult) (row : Invoice)
        → outcome ≡ charged p
        → p.status ≡ some "succeeded"
        → invoices_by_id i db ≡ row ∷ []
        → (w.reload loaded row).state ≢ open_
        → Refuses

  -- The rows of the attempt, changed.
  abbrev pub attempts_as : (PaymentAttempt → PaymentAttempt) → List PaymentAttempt
  attempts_as f = update_where (λ (x : PaymentAttempt). x.id == id) f db.payment_attempts

  -- What the transaction returns and commits, by the answer of the PSP; the attempt as it stood is
  -- `x`, and the time is `d.clock 1`.
  pub data Settles (r : Result PaymentAttempt) (db' : Db) : Type 0 where
    rolled_back : Refuses → (e : AppError) → r ≡ err e → db' ≡ db → Settles r db'
    unclear :
        (e : PspError) (x : PaymentAttempt)
        → outcome ≡ failed_with e
        → attempts_by_id id db ≡ x ∷ []
        → r ≡ ok (record x { failure_code = some (code_of e); updated_at = d.clock 1 })
        → db' ≡ record db {
          payment_attempts =
              attempts_as
                (λ y. record y { failure_code = some (code_of e); updated_at = d.clock 1 });
        }
        → Settles r db'
    declines :
        (p : PspChargeResult) (x : PaymentAttempt) (rows : List WebhookDelivery)
        → outcome ≡ charged p
        → p.status ≢ some "succeeded"
        → attempts_by_id id db ≡ x ∷ []
        → r ≡ ok (record x { status = failed; failure_code = p.code; updated_at = d.clock 1 })
        → db' ≡ record db {
          payment_attempts =
              attempts_as
                (λ y. record y { status = failed; failure_code = p.code; updated_at = d.clock 1 });
          webhook_deliveries = db.webhook_deliveries ++ rows;
        }
        → FansOut business.id
            (d.clock 1)
            "invoice.payment_failed"
            (("invoice_id", uuid i)
              ∷ ("failure_code", json_text p.code)
              ∷ ("amount_cents", int x.amount_cents)
              ∷ [])
            db
            rows
        → Settles r db'
    succeeds :
        (p : PspChargeResult) (x : PaymentAttempt) (rows : List WebhookDelivery)
        → outcome ≡ charged p
        → p.status ≡ some "succeeded"
        → attempts_by_id id db ≡ x ∷ []
        → r ≡ ok (record x { status = succeeded; psp_ref = p.psp_ref; updated_at = d.clock 1 })
        → db' ≡ record db {
          payment_attempts =
              attempts_as
                (λ y. record y { status = succeeded; psp_ref = p.psp_ref; updated_at = d.clock 1 });
          invoices =
              update_where
                (λ (y : Invoice). y.id == i)
                (λ y. record y { state = paid; updated_at = d.clock 1 })
                db.invoices;
          webhook_deliveries = db.webhook_deliveries ++ rows;
        }
        → FansOut business.id
            (d.clock 1)
            "invoice.paid"
            (("invoice_id", uuid i)
              ∷ ("amount_cents", int x.amount_cents)
              ∷ ("psp_ref", json_text p.psp_ref)
              ∷ [])
            db
            rows
        → Settles r db'
