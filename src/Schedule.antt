-- ===== src/Schedule.antt =====
-- Requests that run at the same time, as sequences of the pieces between their commits: POST
-- /invoices/{id}/pay is the piece under the invoice's row lock and, after the PSP's answer, the
-- second transaction; POST /invoices/{id}/finalize, /void and /uncollectible read and write with no
-- lock, so that other pieces can run between the two.
pub mod Rows
pub mod Safety
pub mod Settle
pub mod Transitions
pub mod Charges
pub mod Pending
pub mod Races
use tenant_billing_service.Base.{ℕ, zero, suc, String, Option, none, some, List, [], ◌∷◌}
use tenant_billing_service.Errors.{Result, ok, err}
use tenant_billing_service.Model.Invoice.{Invoice, InvoiceState}
use tenant_billing_service.Model.Payment.{PaymentAttempt}
use tenant_billing_service.Model.Tenant.{Business}
use tenant_billing_service.Model.Db.{Db}
use tenant_billing_service.Session.{open_session, committed_by}
use tenant_billing_service.World.{World, Draws}
use tenant_billing_service.Psp.{ChargeOutcome}
use tenant_billing_service.Payment.Start.{Started, cached, started, lock_and_insert}
use tenant_billing_service.Payment.Resolve.{resolve_payment}
use tenant_billing_service.Invoices.{
  InvoiceCreate, LoadedInvoice, create_invoice, check_transition, write_transition,
  transition_invoice_state,
}

-- A payment between its two transactions: its PSP call is under way.
pub record Flight : Type 0 where
  pub business : Business
  pub invoice_id : ℕ
  pub loaded : Invoice
  pub attempt : PaymentAttempt

-- A transition between its check and its UPDATE.
pub record Writer : Type 0 where
  pub invoice_id : ℕ
  pub target_state : InvoiceState

pub record System : Type 0 where
  pub db : Db
  pub flights : List Flight
  pub writers : List Writer

pub data Event : Type 0 where
  -- step 2 of a payment whose lookup of the key found nothing
  begin : Draws → Business → ℕ → String → String → Event
  -- steps 3 and 4 of the n-th payment under way, by the PSP's outcome
  resolve : ℕ → Draws → ChargeOutcome → Event
  -- the process of the n-th payment under way stops before it has an answer
  crash : ℕ → Event
  create : Draws → Business → InvoiceCreate → Event
  -- a whole transition that nothing interrupts
  transition : Draws → Business → ℕ → InvoiceState → Event
  -- the two halves of a transition
  check : Business → ℕ → InvoiceState → Event
  update : ℕ → ℕ → Event

module _ {ℓ} {A : Type ℓ} where
  abbrev pub get_elem? : List A → ℕ → Option A
  get_elem? [] n = none
  get_elem? (x ∷ xs) zero = some x
  get_elem? (x ∷ xs) (suc n) = get_elem? xs n

  abbrev pub erase_idx : List A → ℕ → List A
  erase_idx [] n = []
  erase_idx (x ∷ xs) zero = xs
  erase_idx (x ∷ xs) (suc n) = x ∷ erase_idx xs n

abbrev pub add_flight : Business → ℕ → Result Started → List Flight → List Flight
add_flight business invoice_id (ok (started attempt loaded)) flights =
    record { business = business; invoice_id = invoice_id; loaded = loaded; attempt = attempt }
    ∷ flights
add_flight business invoice_id (ok (cached attempt)) flights = flights
add_flight business invoice_id (err e) flights = flights

abbrev pub resolve_flight : World → Draws → ChargeOutcome → Option Flight → Db → Db
resolve_flight w d outcome none db = db
resolve_flight w d outcome (some f) db =
    (resolve_payment w d f.business f.invoice_id f.loaded f.attempt outcome
      (open_session db)).1.committed

abbrev pub add_writer : Result LoadedInvoice → InvoiceState → List Writer → List Writer
add_writer (ok found) target_state writers =
    record { invoice_id = found.invoice.id; target_state = target_state } ∷ writers
add_writer (err e) target_state writers = writers

abbrev pub write_of : ℕ → Option Writer → Db → Db
write_of now none db = db
write_of now (some writer) db =
    committed_by (write_transition now writer.invoice_id writer.target_state) db

unfoldable pub step : World → System → Event → System
step w sys (begin d business invoice_id card_token key) =
    let (r, s) = lock_and_insert w d business invoice_id card_token key (open_session sys.db) in
    record sys { db = s.committed; flights = add_flight business invoice_id r sys.flights }
step w sys (resolve n d outcome) = record sys {
  db = resolve_flight w d outcome (get_elem? sys.flights n) sys.db;
  flights = erase_idx sys.flights n;
}
step w sys (crash n) = record sys { flights = erase_idx sys.flights n }
step w sys (create d business payload) = record sys {
  db = committed_by (create_invoice d business payload) sys.db;
}
step w sys (transition d business invoice_id target_state) = record sys {
  db = committed_by (transition_invoice_state d business invoice_id target_state) sys.db;
}
step w sys (check business invoice_id target_state) = record sys {
  writers =
      add_writer (check_transition business invoice_id target_state (open_session sys.db)).0
        target_state sys.writers;
}
step w sys (update n now) = record sys {
  db = write_of now (get_elem? sys.writers n) sys.db;
  writers = erase_idx sys.writers n;
}

unfoldable pub run : World → System → List Event → System
run w sys [] = sys
run w sys (e ∷ events) = run w (step w sys e) events
