-- ===== src/Tests/Resolutions.antt =====
-- The second transaction of a payment on the small world, for each outcome of the PSP.
use tenant_billing_service.Base.{◌≡◌, refl, some, none, [], ◌∷◌}
use tenant_billing_service.Errors.{ok, err, invalid_state_transition}
use tenant_billing_service.Model.Invoice.{Invoice, paid, void}
use tenant_billing_service.Model.Db.{Db}
use tenant_billing_service.Session.{clean}
use tenant_billing_service.World.{World}
use tenant_billing_service.Machine.Laws.{refusal}
use tenant_billing_service.Psp.{PspChargeResult, charged}
use tenant_billing_service.Payment.Attempts.{attempts_by_id}
use tenant_billing_service.Payment.Resolve.{resolve_payment, invoices_by_id, paid_by}
use tenant_billing_service.Payment.Results.{resolve_payment-refused, resolve_payment-stale}
use tenant_billing_service.Tests.World.{
  small_world, draws_from, acme, open_invoice, pending_attempt, pending_db,
}

abbrev pub success : PspChargeResult
success = record { status = some "succeeded"; psp_ref = some "ref"; code = none }

abbrev pub decline : PspChargeResult
decline = record { status = some "failed"; psp_ref = none; code = some "card_declined" }

fetched : attempts_by_id 100 pending_db ≡ pending_attempt ∷ []
unfolding attempts_by_id
fetched = refl

found : invoices_by_id 30 pending_db ≡ open_invoice ∷ []
unfolding invoices_by_id
found = refl

-- The invoice has been voided while the PSP was asked.
abbrev voided_invoice : Invoice
voided_invoice = record open_invoice { state = void; updated_at = 50 }

abbrev voided_db : Db
voided_db = record pending_db { invoices = voided_invoice ∷ [] }

-- A session that reads a row afresh.
abbrev fresh_world : World
fresh_world = record small_world { reload = λ loaded row. row }

resolve_payment-refused_example :
    let (res, s) =
      resolve_payment fresh_world
        (draws_from 100)
        acme
        30
        open_invoice
        pending_attempt
        (charged success)
        (clean voided_db []) in
    (res ≡ err (invalid_state_transition (refusal void paid))) × (s.committed ≡ voided_db)
unfolding attempts_by_id invoices_by_id
resolve_payment-refused_example =
    resolve_payment-refused fresh_world (draws_from 100) acme 30 open_invoice pending_attempt
      voided_db [] pending_attempt refl success voided_invoice refl refl refl (λ e. cc)

resolve_payment-stale_example :
    let (res, s) =
      resolve_payment small_world
        (draws_from 100)
        acme
        30
        open_invoice
        pending_attempt
        (charged success)
        (clean voided_db []) in
    (res ≡ ok (paid_by success 101 pending_attempt))
    × (invoices_by_id 30 s.committed
        ≡ record voided_invoice { state = paid; updated_at = 101 } ∷ [])
unfolding attempts_by_id invoices_by_id
resolve_payment-stale_example =
    resolve_payment-stale small_world (draws_from 100) acme 30 open_invoice pending_attempt
      voided_db [] pending_attempt refl success voided_invoice refl refl refl refl refl
