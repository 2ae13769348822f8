-- ===== src/Payment/Whole.antt =====
-- `process_payment` from a new request to its answer: what a payment comes to for each answer of the
-- PSP, with the client of app/services/psp_client.py between the two transactions.
use tenant_billing_service.Base.{
  ℕ, ◌<◌, ◌≡◌, refl, true, false, String, some, [], ◌∷◌, ◌++◌, arith, any, ==_refl, any-select,
  select-append, select-none, update_where, update-last,
}
use tenant_billing_service.Errors.{ok}
use tenant_billing_service.Model.Payment.{PaymentAttempt}
use tenant_billing_service.Model.Invoice.{Invoice, open_}
use tenant_billing_service.Model.Tenant.{Business}
use tenant_billing_service.Model.Db.{Db}
use tenant_billing_service.Session.{PspRequest, open_session, clean}
use tenant_billing_service.World.{World, Draws}
use tenant_billing_service.Psp.{charge, read_outcome, ChargeOutcome}
use tenant_billing_service.Payment.{process_payment}
use tenant_billing_service.Payment.Attempts.{
  find_attempts, attempts_by_id, has_id, has_key, is_pending_on, fits_columns, violated,
}
use tenant_billing_service.Payment.Insert.{insert_attempt-admitted}
use tenant_billing_service.Payment.Start.{
  hash_request_body, find_invoices, new_attempt, start_payment, started, flush_attempt,
}
use tenant_billing_service.Payment.Resolve.{resolve_payment}
use tenant_billing_service.Payment.Replay.{start_payment-flush}

-- A payment that nothing stands in the way of: a new key, an open invoice with a positive total and
-- no pending attempt, an identifier not yet taken, and values that fit their columns.
pub record Goes (w : World) (d : Draws) (business : Business) (i : ℕ) (token key : String) (db : Db)
    (invoice : Invoice) : Type 0 where
  pub new_key : find_attempts i key db ≡ []
  pub found : find_invoices business.id i db ≡ invoice ∷ []
  pub was_open : invoice.state ≡ open_
  pub positive : 0 < invoice.total_cents
  pub idle : any (is_pending_on i) db.payment_attempts ≡ false
  pub new_id : any (has_id (d.uuid 0)) db.payment_attempts ≡ false
  pub fits :
      fits_columns
        (new_attempt (d.uuid 0) (d.clock 0) i invoice token key (hash_request_body w token))
      ≡ true

-- The request that the PSP gets.
abbrev pub charge_of : String → String → Invoice → PspRequest
charge_of token key invoice = record {
  card_token = token;
  amount_cents = invoice.total_cents;
  idempotency_key = some key;
}

module _ (w : World) (d : Draws) (business : Business) (i : ℕ) (token key : String) (db : Db)
    (invoice : Invoice) (goes : Goes w d business i token key db invoice) where
  abbrev pub attempt : PaymentAttempt
  attempt = new_attempt (d.uuid 0) (d.clock 0) i invoice token key (hash_request_body w token)

  abbrev pub begun_db : Db
  begun_db = record db { payment_attempts = db.payment_attempts ++ attempt ∷ [] }

  admits : violated attempt db.payment_attempts ≡ []
  unfolding violated new_attempt find_attempts
  admits = ground (
    arith,
    goes.positive,
    goes.new_id,
    goes.idle,
    any-select (has_key i key) db.payment_attempts goes.new_key,
  )

  begins :
      start_payment w d business i token key (open_session db)
      ≡ (ok (started attempt invoice), open_session begun_db)
  unfolding flush_attempt
  begins =
      rw
        (
          start_payment-flush w d business i token key (open_session db) invoice goes.new_key
              goes.found goes.was_open,
          insert_attempt-admitted w attempt (open_session db) goes.fits admits,
        )
        refl

  pub fetched : attempts_by_id attempt.id begun_db ≡ attempt ∷ []
  unfolding attempts_by_id new_attempt
  fetched =
      rw (select-append, select-none (has_id (d.uuid 0)) db.payment_attempts goes.new_id)
        (ground (arith, ==_refl (d.uuid 0)))

  pub saved :
      (f : PaymentAttempt → PaymentAttempt)
      → update_where (has_id attempt.id) f begun_db.payment_attempts
        ≡ db.payment_attempts ++ f attempt ∷ []
  unfolding new_attempt
  saved f =
      update-last (has_id (d.uuid 0)) f db.payment_attempts attempt goes.new_id (==_refl (d.uuid 0))

  -- The answer, once the second transaction is known.
  pub answers :
      (outcome : ChargeOutcome) (x : PaymentAttempt) (db' : Db)
      → read_outcome (w.post [] (charge_of token key invoice)) ≡ outcome
      → resolve_payment w d business i invoice attempt outcome
          (clean begun_db (charge_of token key invoice ∷ []))
        ≡ (ok x, clean db' (charge_of token key invoice ∷ []))
      → process_payment w d business i token key (open_session db)
        ≡ (ok (x, false), clean db' (charge_of token key invoice ∷ []))
  unfolding process_payment charge new_attempt
  answers outcome x db' answer resolved = ground (arith, begins, answer, resolved)
