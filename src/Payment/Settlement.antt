-- ===== src/Payment/Settlement.antt =====
-- The second transaction of a payment, on every path: what it returns, what it commits, and why it
-- commits nothing where it does not.
use tenant_billing_service.Base.{
  ℕ, ◌≡◌, ◌≢◌, refl, ap, ◌⊎◌, inl, inr, true, false, String, Option, none, some, List, [], ◌∷◌,
  arith, str_eq, eq_iff, eq_refl, Bool-cases,
}
use tenant_billing_service.Errors.{
  database, no_result_found, multiple_results_found, data_error, bad_psp_body,
}
use tenant_billing_service.Model.Invoice.{
  Invoice, InvoiceState, draft, open_, paid, void, uncollectible,
}
use tenant_billing_service.Model.Payment.{PaymentAttempt}
use tenant_billing_service.Model.Tenant.{Business}
use tenant_billing_service.Model.Db.{Db}
use tenant_billing_service.Session.{PspRequest, clean}
use tenant_billing_service.World.{World, Draws}
use tenant_billing_service.Psp.{
  PspError, psp_timeout, psp_network_error, PspChargeResult, ChargeOutcome, charged, failed_with,
  raised, is_succeeded, failure_code_from_psp_error,
}
use tenant_billing_service.Payment.Attempts.{attempts_by_id, fits_text, save_attempt}
use tenant_billing_service.Payment.Resolve.{
  resolve_payment, settle, settle_succeeded, settle_declined, invoices_by_id, delivery_ids,
  paid_payload, failed_payload,
}
use tenant_billing_service.Payment.Results.{
  resolve_payment-unknown, resolve_payment-declined, resolve_payment-succeeded,
  resolve_payment-refused,
}
use tenant_billing_service.Payment.Settled.{
  no_answer, no_attempt, wide_code, wide_reference, no_invoice, not_open, Settles, rolled_back,
  unclear, declines, succeeds,
}
use tenant_billing_service.Payment.Promises.{fans_out, optional-json}

is_open-cases : (s : InvoiceState) → (s ≡ open_) ⊎ (s ≢ open_)
is_open-cases open_ = inl refl
is_open-cases draft = inr (λ e. cc)
is_open-cases paid = inr (λ e. cc)
is_open-cases void = inr (λ e. cc)
is_open-cases uncollectible = inr (λ e. cc)

status-cases :
    (status : Option String)
    → ((status ≡ some "succeeded") × (is_succeeded status ≡ true))
      ⊎ ((status ≢ some "succeeded") × (is_succeeded status ≡ false))
status-cases none = inr ((λ e. cc), refl)
status-cases (some s) = elim (Bool-cases (str_eq s "succeeded")) [
  | inl same ↦ inl (ap some ((eq_iff s "succeeded").0 same), same)
  | inr other ↦ inr ((λ e. cc (e, other, eq_refl "succeeded")), other)
]

module _ (w : World) (d : Draws) (business : Business) (i : ℕ) (loaded : Invoice)
    (a : PaymentAttempt) (db : Db) (sent : List PspRequest) where
  abbrev Done : ChargeOutcome → Type 0
  Done outcome =
      let (r, s) = resolve_payment w d business i loaded a outcome (clean db sent) in
      Settles w d business i loaded a.id outcome db r s.committed

  module _ (x : PaymentAttempt) (fetched : attempts_by_id a.id db ≡ x ∷ []) where
    Done-unclear : (e : PspError) → Done (failed_with e)
    unfolding failure_code_from_psp_error
    Done-unclear psp_timeout =
        rw (resolve_payment-unknown w d business i loaded a db sent x fetched psp_timeout)
          (unclear psp_timeout x refl fetched refl refl)
    Done-unclear psp_network_error =
        rw (resolve_payment-unknown w d business i loaded a db sent x fetched psp_network_error)
          (unclear psp_network_error x refl fetched refl refl)

    Done-declined :
        (p : PspChargeResult)
        → p.status ≢ some "succeeded"
        → is_succeeded p.status ≡ false
        → Done (charged p)
    unfolding resolve_payment settle settle_declined
    Done-declined p other no_ = elim (Bool-cases (fits_text 50 p.code)) [
      | inl fit ↦
          rw (resolve_payment-declined w d business i loaded a db sent x fetched p no_ fit) (
            declines p x _ refl other fetched refl refl (
              fans_out (delivery_ids d) business.id (d.clock 1) "invoice.payment_failed"
                (failed_payload i x.amount_cents p.code) _ db (rw (optional-json p.code) refl)))
      | inr wide ↦
          rolled_back (wide_code p refl other wide) (database data_error) (ground arith)
            (ground arith)
    ]

    Done-succeeded :
        (p : PspChargeResult)
        → p.status ≡ some "succeeded"
        → is_succeeded p.status ≡ true
        → (rows : List Invoice) → invoices_by_id i db ≡ rows
        → fits_text 100 p.psp_ref ≡ true
        → Done (charged p)
    unfolding resolve_payment settle settle_succeeded save_attempt invoices_by_id
    Done-succeeded p is yes_ [] found fit =
        rolled_back (no_invoice p refl is (λ r e. cc (found, e))) (database no_result_found)
          (ground arith) (ground arith)
    Done-succeeded p is yes_ (r ∷ q ∷ rest) found fit =
        rolled_back (no_invoice p refl is (λ r' e. cc (found, e))) (database multiple_results_found)
          (ground arith) (ground arith)
    Done-succeeded p is yes_ (row ∷ []) found fit =
        elim (is_open-cases (w.reload loaded row).state) [
          | inl was_open ↦
              rw
                (resolve_payment-succeeded w d business i loaded a db sent x fetched p row yes_ fit
                  found was_open)
                (succeeds p x _ refl is fetched refl refl (
                  fans_out (delivery_ids d) business.id (d.clock 1) "invoice.paid"
                    (paid_payload i x.amount_cents p.psp_ref) _ db
                    (rw (optional-json p.psp_ref) refl)))
          | inr closed ↦
              let (failed_, kept) =
                resolve_payment-refused w d business i loaded a db sent x fetched p row yes_ fit
                  found closed in
              rolled_back (not_open p row refl is found closed) _ failed_ kept
        ]

    Done-charged :
        (p : PspChargeResult)
        → p.status ≡ some "succeeded"
        → is_succeeded p.status ≡ true
        → Done (charged p)
    unfolding resolve_payment settle settle_succeeded
    Done-charged p is yes_ = elim (Bool-cases (fits_text 100 p.psp_ref)) [
      | inl fit ↦ Done-succeeded p is yes_ (invoices_by_id i db) refl fit
      | inr wide ↦
          rolled_back (wide_reference p refl is wide) (database data_error) (ground arith)
            (ground arith)
    ]

    done : (outcome : ChargeOutcome) → Done outcome
    unfolding resolve_payment
    done (failed_with e) = Done-unclear e
    done raised = rolled_back (no_answer refl) bad_psp_body refl refl
    done (charged p) = elim (status-cases p.status) [
      | inl (is, yes_) ↦ Done-charged p is yes_
      | inr (other, no_) ↦ Done-declined p other no_
    ]

  by_rows :
      (outcome : ChargeOutcome) (rows : List PaymentAttempt)
      → attempts_by_id a.id db ≡ rows
      → Done outcome
  unfolding resolve_payment
  by_rows outcome (x ∷ []) fetched = done x fetched outcome
  by_rows raised rows fetched = rolled_back (no_answer refl) bad_psp_body refl refl
  by_rows (failed_with e) [] fetched =
      rolled_back (no_attempt (λ x e. cc (fetched, e))) (database no_result_found) (ground arith)
        (ground arith)
  by_rows (charged p) [] fetched =
      rolled_back (no_attempt (λ x e. cc (fetched, e))) (database no_result_found) (ground arith)
        (ground arith)
  by_rows (failed_with e) (x ∷ y ∷ rest) fetched =
      rolled_back (no_attempt (λ z e. cc (fetched, e))) (database multiple_results_found)
        (ground arith) (ground arith)
  by_rows (charged p) (x ∷ y ∷ rest) fetched =
      rolled_back (no_attempt (λ z e. cc (fetched, e))) (database multiple_results_found)
        (ground arith) (ground arith)

  -- For any tables and any outcome of the PSP call, the second transaction does one of four things.
  -- After a timeout or a network error it stores the code on the attempt alone. After an answer
  -- with another status than "succeeded" it marks the attempt failed with the answer's code and
  -- adds one row "invoice.payment_failed" for each active endpoint. After "succeeded" it marks the
  -- attempt succeeded with the reference and the invoice paid, and adds one row "invoice.paid" for
  -- each active endpoint. Each of these is committed at once with nothing else, and returns the
  -- attempt as it is then. Or it raises and commits nothing: then the PSP's answer could not be
  -- read, the attempt or the invoice does not stand once in the tables, a text is wider than its
  -- column, or the session reads the invoice as no longer open.
  pub resolve_payment-Settles :
      (outcome : ChargeOutcome)
      → let (r, s) = resolve_payment w d business i loaded a outcome (clean db sent) in
        Settles w d business i loaded a.id outcome db r s.committed
  resolve_payment-Settles outcome = by_rows outcome (attempts_by_id a.id db) refl
