-- ===== src/Payment/Resolve.antt =====
-- Step 4 of `process_payment` in app/services/payment_service.py: what the PSP's outcome makes of
-- the attempt, the invoice and the outbox, in one transaction.
use tenant_billing_service.Base.{
  ℕ, suc, String, Bool, Option, none, some, List, [], ◌∷◌, ◌==◌, select, update_where,
  if◌then◌else◌,
}
use tenant_billing_service.Errors.{data_error, database, bad_psp_body}
use tenant_billing_service.Model.Invoice.{Invoice, InvoiceState, paid}
use tenant_billing_service.Model.Payment.{PaymentAttempt, succeeded, failed}
use tenant_billing_service.Model.Webhook.{Json, text, uuid, int, null}
use tenant_billing_service.Model.Tenant.{Business}
use tenant_billing_service.Model.Db.{Db}
use tenant_billing_service.Session.{
  Action, raise, lift, query, write, commit, ◌>>=◌, ◌>>◌, scalar_one,
}
use tenant_billing_service.World.{World, Draws}
use tenant_billing_service.Machine.{assert_transition_allowed}
use tenant_billing_service.Psp.{
  is_succeeded, PspError, PspChargeResult, ChargeOutcome, charged, failed_with, raised,
  failure_code_from_psp_error,
}
use tenant_billing_service.Outbox.{enqueue_event}
use tenant_billing_service.Payment.Attempts.{attempts_by_id, save_attempt, fits_text}

abbrev pub has_invoice_id : ℕ → Invoice → Bool
has_invoice_id id invoice = invoice.id == id

unfoldable pub invoices_by_id : ℕ → Db → List Invoice
invoices_by_id id db = select (has_invoice_id id) db.invoices

-- The UPDATE of an invoice's state, by its primary key.
unfoldable pub set_invoice_state : ℕ → ℕ → InvoiceState → Action (Unit {0})
set_invoice_state id now target = write (λ db. record db {
  invoices =
      update_where (has_invoice_id id) (λ row. record row { state = target; updated_at = now })
        db.invoices;
})

-- A text of a payload, or null.
abbrev pub optional_text : Option String → Json
optional_text none = null
optional_text (some s) = text s

-- What the three branches set on the attempt; `now` is the time of the second transaction.
abbrev pub unresolved : PspError → ℕ → PaymentAttempt → PaymentAttempt
unresolved e now row = record row {
  failure_code = some (failure_code_from_psp_error e);
  updated_at = now;
}

abbrev pub paid_by : PspChargeResult → ℕ → PaymentAttempt → PaymentAttempt
paid_by r now row = record row { status = succeeded; psp_ref = r.psp_ref; updated_at = now }

abbrev pub declined_by : PspChargeResult → ℕ → PaymentAttempt → PaymentAttempt
declined_by r now row = record row { status = failed; failure_code = r.code; updated_at = now }

abbrev pub paid_payload : ℕ → ℕ → Option String → List (String × Json)
paid_payload invoice_id amount_cents psp_ref =
    ("invoice_id", uuid invoice_id)
    ∷ ("amount_cents", int amount_cents)
    ∷ ("psp_ref", optional_text psp_ref)
    ∷ []

abbrev pub failed_payload : ℕ → ℕ → Option String → List (String × Json)
failed_payload invoice_id amount_cents code =
    ("invoice_id", uuid invoice_id)
    ∷ ("failure_code", optional_text code)
    ∷ ("amount_cents", int amount_cents)
    ∷ []

-- The identifiers of the second transaction's outbox rows come after the attempt's.
abbrev pub delivery_ids : Draws → ℕ → ℕ
delivery_ids d n = d.uuid (suc n)

-- The branch "succeeded". The UPDATE of the attempt is flushed before the SELECT of the invoice.
unfoldable pub settle_succeeded :
    World → Draws → Business → ℕ → Invoice → PaymentAttempt → PspChargeResult → Action (Unit {0})
settle_succeeded w d business invoice_id loaded attempt r =
    if fits_text 100 r.psp_ref
    then (do
      save_attempt attempt.id (paid_by r (d.clock 1))
      rows ← query (invoices_by_id invoice_id)
      row ← lift (scalar_one rows)
      lift (assert_transition_allowed ((w.reload loaded row).state) paid)
      set_invoice_state invoice_id (d.clock 1) paid
      enqueue_event (delivery_ids d) (d.clock 1) business.id "invoice.paid"
          (paid_payload invoice_id attempt.amount_cents r.psp_ref))
    else raise (database data_error)

-- The branch of a business failure.
unfoldable pub settle_declined :
    Draws → Business → ℕ → PaymentAttempt → PspChargeResult → Action (Unit {0})
settle_declined d business invoice_id attempt r =
    if fits_text 50 r.code
    then (do
      save_attempt attempt.id (declined_by r (d.clock 1))
      enqueue_event (delivery_ids d) (d.clock 1) business.id "invoice.payment_failed"
          (failed_payload invoice_id attempt.amount_cents r.code))
    else raise (database data_error)

unfoldable pub settle :
    World → Draws → Business → ℕ → Invoice → PaymentAttempt → ChargeOutcome → Action (Unit {0})
settle w d business invoice_id loaded attempt (failed_with e) =
    save_attempt attempt.id (unresolved e (d.clock 1))
settle w d business invoice_id loaded attempt (charged r) =
    if is_succeeded r.status
    then settle_succeeded w d business invoice_id loaded attempt r
    else settle_declined d business invoice_id attempt r
settle w d business invoice_id loaded attempt raised = raise bad_psp_body

-- The attempt is fetched again, changed with all that follows from it, committed and refreshed. An
-- exception of the PSP client other than a PSPError passes through before anything is fetched.
unfoldable pub resolve_payment :
    World → Draws → Business → ℕ → Invoice → PaymentAttempt → ChargeOutcome → Action PaymentAttempt
resolve_payment w d business invoice_id loaded attempt raised = raise bad_psp_body
resolve_payment w d business invoice_id loaded attempt outcome = do
  refreshed ← query (attempts_by_id attempt.id)
  current ← lift (scalar_one refreshed)
  settle w d business invoice_id loaded current outcome
  commit
  after ← query (attempts_by_id attempt.id)
  lift (scalar_one after)
