-- ===== src/Schedule/Pending.antt =====
-- What the partial unique index keeps whatever the interleaving, cut transitions included.
use tenant_billing_service.Base.{
  ℕ, ◌≤◌, ◌≡◌, refl, inl, inr, true, Option, none, some, List, [], ◌∷◌, ◌++◌, arith, ◌==◌, ==_iff,
  count, update_where, count-append, any-count, Bool-cases, String,
}
use tenant_billing_service.Model.Invoice.{InvoiceState}
use tenant_billing_service.Model.Payment.{PaymentAttempt, pending, is_pending}
use tenant_billing_service.Model.Tenant.{Business}
use tenant_billing_service.Model.Db.{Db}
use tenant_billing_service.Session.{open_session, committed_by}
use tenant_billing_service.World.{World, Draws}
use tenant_billing_service.Psp.{ChargeOutcome}
use tenant_billing_service.Payment.Attempts.{has_id, is_pending_on}
use tenant_billing_service.Payment.Insert.{Admits}
use tenant_billing_service.Payment.Start.{lock_and_insert}
use tenant_billing_service.Payment.Resolve.{
  resolve_payment, set_invoice_state, unresolved, paid_by, declined_by,
}
use tenant_billing_service.Payment.Outcomes.{lock_and_insert-cases}
use tenant_billing_service.Payment.Effects.{
  Effect, untouched, unknown, declined, settled, resolve_payment-Effect,
}
use tenant_billing_service.Invoices.{write_transition, load_invoice}
use tenant_billing_service.Invoices.Outcomes.{create_invoice-cases, transition-cases}
use tenant_billing_service.Schedule.{
  Flight, Writer, System, Event, begin, resolve, crash, create, transition, check, update, step,
  run, get_elem?, resolve_flight, write_of,
}

abbrev pub OnePending : List PaymentAttempt → Type 0
OnePending rows = (i : ℕ) → count (is_pending_on i) rows ≤ 1

insert-OnePending :
    (a : PaymentAttempt) (rows : List PaymentAttempt)
    → a.status ≡ pending
    → Admits a rows
    → OnePending rows
    → OnePending (rows ++ a ∷ [])
insert-OnePending a rows is_new admitted one i = elim (Bool-cases (a.invoice_id == i)) [
  | inl same ↦ rw (← (==_iff a.invoice_id i).0 same) (
      ground (
        arith,
        count-append (is_pending_on a.invoice_id) rows (a ∷ []),
        any-count (is_pending_on a.invoice_id) rows (ground (arith, admitted.one_pending)),
      ))
  | inr other ↦ ground (arith, count-append (is_pending_on i) rows (a ∷ []), one i)
]

-- An UPDATE that makes no row pending makes no more rows pending.
update-pending :
    (id i : ℕ) (f : PaymentAttempt → PaymentAttempt)
    → ((a : PaymentAttempt) → (f a).invoice_id ≡ a.invoice_id)
    → ((a : PaymentAttempt) → is_pending (f a).status ≡ true → is_pending a.status ≡ true)
    → (rows : List PaymentAttempt)
    → count (is_pending_on i) (update_where (has_id id) f rows) ≤ count (is_pending_on i) rows
update-pending id i f same keeps [] = omega arith
update-pending id i f same keeps (a ∷ rows) =
    ground (arith, same a, keeps a, update-pending id i f same keeps rows)

module _ (id i now : ℕ) (db db' : Db) where
  Effect-OnePending :
      Effect id i now db db' → OnePending db.payment_attempts → OnePending db'.payment_attempts
  Effect-OnePending (untouched same) one = rw same one
  Effect-OnePending (unknown e rows _) one = rw rows (λ j. omega (
    arith,
    one j,
    update-pending id j (unresolved e now) (λ a. refl) (λ a h. h) db.payment_attempts,
  ))
  Effect-OnePending (declined r rows _) one = rw rows (λ j. omega (
    arith,
    one j,
    update-pending id j (declined_by r now) (λ a. refl) (λ a h. cc) db.payment_attempts,
  ))
  Effect-OnePending (settled r rows _) one = rw rows (λ j. omega (
    arith,
    one j,
    update-pending id j (paid_by r now) (λ a. refl) (λ a h. cc) db.payment_attempts,
  ))

write_transition-attempts :
    (now id : ℕ) (target : InvoiceState) (db : Db)
    → (committed_by (write_transition now id target) db).payment_attempts ≡ db.payment_attempts
unfolding write_transition set_invoice_state load_invoice
write_transition-attempts now id target db = ground arith

module _ (w : World) (db : Db) (one : OnePending db.payment_attempts) where
  begin_pending :
      (d : Draws) (business : Business) (i : ℕ) (token key : String)
      → OnePending
          (lock_and_insert w d business i token key (open_session db)).1.committed.payment_attempts
  begin_pending d business i token key = elim (lock_and_insert-cases w d business i token key db) [
    | inl b ↦ rw b.written (insert-OnePending b.attempt db.payment_attempts b.is_new b.admitted one)
    | inr (ends, same) ↦ rw same one
  ]

  resolve_pending :
      (d : Draws) (outcome : ChargeOutcome) (o : Option Flight)
      → OnePending (resolve_flight w d outcome o db).payment_attempts
  resolve_pending d outcome none = one
  resolve_pending d outcome (some f) =
      Effect-OnePending f.attempt.id f.invoice_id (d.clock 1) db
        (resolve_payment w d f.business f.invoice_id f.loaded f.attempt outcome
          (open_session db)).1.committed
        (resolve_payment-Effect w d f.business f.invoice_id f.loaded f.attempt db [] outcome) one

  write_pending : (now : ℕ) (o : Option Writer) → OnePending (write_of now o db).payment_attempts
  write_pending now none = one
  write_pending now (some writer) =
      rw (write_transition-attempts now writer.invoice_id writer.target_state db) one

step-OnePending :
    (w : World) (sys : System) (e : Event)
    → OnePending sys.db.payment_attempts
    → OnePending (step w sys e).db.payment_attempts
unfolding step
step-OnePending w sys (begin d business i token key) one =
    begin_pending w sys.db one d business i token key
step-OnePending w sys (resolve n d outcome) one =
    resolve_pending w sys.db one d outcome (get_elem? sys.flights n)
step-OnePending w sys (crash n) one = one
step-OnePending w sys (create d business payload) one =
    rw (create_invoice-cases d business payload sys.db).0 one
step-OnePending w sys (transition d business i target) one =
    rw (transition-cases d business i target sys.db).0 one
step-OnePending w sys (check business i target) one = one
step-OnePending w sys (update n now) one = write_pending w sys.db one now (get_elem? sys.writers n)

-- If no invoice has two pending attempts, then after any sequence of events none has, also with
-- crashes and with transitions that others interrupt.
pub run-OnePending :
    (w : World) (sys : System) (events : List Event)
    → OnePending sys.db.payment_attempts
    → OnePending (run w sys events).db.payment_attempts
unfolding run
run-OnePending w sys [] one = one
run-OnePending w sys (e ∷ events) one =
    run-OnePending w (step w sys e) events (step-OnePending w sys e one)
