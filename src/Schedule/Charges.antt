-- ===== src/Schedule/Charges.antt =====
-- At most one charge for each invoice, whatever runs at the same time, if transitions are not
-- interrupted between their check and their UPDATE.
use tenant_billing_service.Base.{
  ℕ, ◌≤◌, ◌≡◌, refl, sym, ap, ◌⊎◌, inl, inr, Option, none, some, String, List, [], ◌∷◌, arith,
  count, select, All, Bool-cases,
}
use tenant_billing_service.Errors.{Result, ok, err}
use tenant_billing_service.Model.Invoice.{Invoice, InvoiceState, paid}
use tenant_billing_service.Model.Tenant.{Business}
use tenant_billing_service.Model.Db.{Db}
use tenant_billing_service.Session.{Session, open_session, committed_by}
use tenant_billing_service.World.{World, Draws}
use tenant_billing_service.Psp.{ChargeOutcome}
use tenant_billing_service.Payment.Start.{Started, cached, started, find_invoices, lock_and_insert}
use tenant_billing_service.Payment.Resolve.{has_invoice_id, resolve_payment}
use tenant_billing_service.Payment.Outcomes.{Ends, lock_and_insert-cases}
use tenant_billing_service.Payment.Effects.{resolve_payment-Effect}
use tenant_billing_service.Invoices.{
  InvoiceCreate, create_invoice, draft_invoice, transition_invoice_state,
}
use tenant_billing_service.Invoices.Outcomes.{create_invoice-cases, transition-cases}
use tenant_billing_service.Schedule.{
  Flight, System, Event, begin, resolve, crash, create, transition, check, update, step, run,
  get_elem?, erase_idx, add_flight, resolve_flight,
}
use tenant_billing_service.Schedule.Rows.{is_live_on, is_succeeded_on, PaidIf}
use tenant_billing_service.Schedule.Safety.{IsSafe, begin-IsSafe, zero_or_pos}
use tenant_billing_service.Schedule.Settle.{crash-IsSafe, Effect-IsSafe}
use tenant_billing_service.Schedule.Transitions.{
  new_invoice-IsSafe, set_state-IsSafe, allowed-unpaid, found-id,
}

abbrev pub Safe : Db → List Flight → Type 0
Safe db flights = IsSafe db.invoices db.payment_attempts flights

module _ (w : World) (db : Db) (flights : List Flight) (safe : Safe db flights) where
  begin_step :
      (d : Draws) (business : Business) (i : ℕ) (token key : String)
      → let (r, s) = lock_and_insert w d business i token key (open_session db) in
        Safe s.committed (add_flight business i r flights)
  unfolding find_invoices
  begin_step d business i token key = elim (lock_and_insert-cases w d business i token key db) [
    | inl b ↦
        rw (b.result, b.written)
          (begin-IsSafe db.invoices db.payment_attempts flights safe b.attempt b.admitted b.is_new
            business.id b.invoice (rw b.of_invoice b.found) b.was_open
            (record {
              business = business;
              invoice_id = i;
              loaded = b.invoice;
              attempt = b.attempt;
            })
            refl (sym b.of_invoice))
    | inr (ends, same) ↦
        ended (lock_and_insert w d business i token key (open_session db)).0 ends
          (ap (λ (s : Session). s.committed) same)
  ]
    where
      ended :
          (r : Result Started)
          → Ends r
          → (lock_and_insert w d business i token key (open_session db)).1.committed ≡ db
          → Safe
              (lock_and_insert w d business i token key (open_session db)).1.committed
              (add_flight business i r flights)
      ended (ok (started a x)) ends same = absurd ends
      ended (ok (cached a)) ends same = rw same safe
      ended (err e) ends same = rw same safe

  resolve_step :
      (n : ℕ) (d : Draws) (outcome : ChargeOutcome) (o : Option Flight)
      → get_elem? flights n ≡ o
      → Safe (resolve_flight w d outcome o db) (erase_idx flights n)
  resolve_step n d outcome none e = crash-IsSafe db.invoices db.payment_attempts flights n safe
  resolve_step n d outcome (some f) e =
      Effect-IsSafe flights n f (d.clock 1) db
        (resolve_payment w d f.business f.invoice_id f.loaded f.attempt outcome
          (open_session db)).1.committed
        e (resolve_payment-Effect w d f.business f.invoice_id f.loaded f.attempt db [] outcome) safe

  create_step :
      (d : Draws) (business : Business) (payload : InvoiceCreate)
      → Safe (committed_by (create_invoice d business payload) db) flights
  create_step d business payload =
      let (attempts, ends) = create_invoice-cases d business payload db in
      elim ends [
        | inl same ↦ rw (attempts, same) safe
        | inr (added, new_id) ↦
            rw (attempts, added)
              (new_invoice-IsSafe db.invoices db.payment_attempts flights safe
                (draft_invoice d business payload) new_id)
      ]

  transition_step :
      (d : Draws) (business : Business) (i : ℕ) (target : InvoiceState)
      → Safe (committed_by (transition_invoice_state d business i target) db) flights
  unfolding find_invoices
  transition_step d business i target =
      let (attempts, ends) = transition-cases d business i target db in
      elim ends [
        | inl same ↦ rw (attempts, same) safe
        | inr (x, found, allowed, set) ↦
            rw (attempts, set, found-id business.id i db.invoices x [] found)
              (set_state-IsSafe db.invoices db.payment_attempts flights safe business.id i
                (d.clock 0) target x found (allowed-unpaid x.state target allowed))
      ]

-- The events but the halves of a transition.
abbrev pub IsWhole : Event → Type 0
IsWhole (check business i target) = ⊥
IsWhole (update n now) = ⊥
IsWhole _ = Unit

abbrev pub SafeSystem : System → Type 0
SafeSystem sys = Safe sys.db sys.flights

-- Each event but the halves of a transition keeps the invariant.
pub step-Safe :
    (w : World) (sys : System) (e : Event) → IsWhole e → SafeSystem sys → SafeSystem (step w sys e)
unfolding step
step-Safe w sys (begin d business i token key) h safe =
    begin_step w sys.db sys.flights safe d business i token key
step-Safe w sys (resolve n d outcome) h safe =
    resolve_step w sys.db sys.flights safe n d outcome (get_elem? sys.flights n) refl
step-Safe w sys (crash n) h safe =
    crash-IsSafe sys.db.invoices sys.db.payment_attempts sys.flights n safe
step-Safe w sys (create d business payload) h safe =
    create_step w sys.db sys.flights safe d business payload
step-Safe w sys (transition d business i target) h safe =
    transition_step w sys.db sys.flights safe d business i target
step-Safe w sys (check business i target) h safe = absurd h
step-Safe w sys (update n now) h safe = absurd h

start-Safe : (sys : System) → sys.db.payment_attempts ≡ [] → sys.flights ≡ [] → SafeSystem sys
start-Safe sys no_attempts no_flights = record {
  one_live = λ i. rw no_attempts (omega arith);
  paid_up = λ i h. absurd (let p = rw no_attempts at h in omega arith);
  known = rw no_attempts tt;
  flying = rw (no_attempts, no_flights) tt;
}

-- From tables and payments under way that satisfy the invariant, every sequence of whole events
-- leads to such.
pub run-Safe :
    (w : World) (sys : System) (events : List Event)
    → All IsWhole events
    → SafeSystem sys
    → SafeSystem (run w sys events)
unfolding run
run-Safe w sys [] h safe = safe
run-Safe w sys (e ∷ events) (whole, h) safe =
    run-Safe w (step w sys e) events h (step-Safe w sys e whole safe)

paid-select :
    (i : ℕ) (rows : List Invoice)
    → All (PaidIf i) rows
    → All (λ x. x.state ≡ paid) (select (has_invoice_id i) rows)
paid-select i [] h = tt
paid-select i (x ∷ rows) (p, h) = elim (Bool-cases (has_invoice_id i x)) [
  | inl yes_ ↦ rw yes_ (p yes_, paid-select i rows h)
  | inr no_ ↦ rw no_ (paid-select i rows h)
]

-- If a service starts with no payment attempt and none under way, and no transition is interrupted
-- between its check and its UPDATE, then after any sequence of events no invoice has more than one
-- attempt that is pending or succeeded, and an invoice with a succeeded attempt is paid.
pub one_charge :
    (w : World) (sys : System) (events : List Event)
    → sys.db.payment_attempts ≡ []
    → sys.flights ≡ []
    → All IsWhole events
    → (i : ℕ)
    → let db = (run w sys events).db in
      (count (is_live_on i) db.payment_attempts ≤ 1)
      × ((count (is_succeeded_on i) db.payment_attempts ≡ 0)
          ⊎ All (λ x. x.state ≡ paid) (select (has_invoice_id i) db.invoices))
one_charge w sys events no_attempts no_flights whole i =
    let safe = run-Safe w sys events whole (start-Safe sys no_attempts no_flights) in
    let db = (run w sys events).db in
    (
      safe.one_live i,
      elim (zero_or_pos (count (is_succeeded_on i) db.payment_attempts)) [
        | inl none_paid ↦ inl none_paid
        | inr p ↦ inr (paid-select i db.invoices (safe.paid_up i p))
      ],
    )
