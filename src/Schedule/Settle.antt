-- ===== src/Schedule/Settle.antt =====
-- The invariant of Schedule/Safety under the second transaction of a payment, a crash, a creation
-- and a transition.
use tenant_billing_service.Base.{
  ℕ, zero, suc, ◌≤◌, ◌≡◌, refl, inl, inr, true, false, some, List, [], ◌∷◌, arith, ◌==◌, ==_iff,
  any, count, update_where, All, Bool-cases,
}
use tenant_billing_service.Model.Invoice.{Invoice, paid}
use tenant_billing_service.Model.Payment.{PaymentAttempt}
use tenant_billing_service.Model.Db.{Db}
use tenant_billing_service.Payment.Attempts.{has_id}
use tenant_billing_service.Payment.Effects.{Effect, untouched, unknown, declined, settled}
use tenant_billing_service.Payment.Resolve.{has_invoice_id, unresolved, paid_by, declined_by}
use tenant_billing_service.Schedule.{Flight, get_elem?, erase_idx}
use tenant_billing_service.Schedule.Rows.{
  is_live_on, is_succeeded, PendsOn, PaidIf, any_id-update, PendsOn-update_ne, live-update,
  succeeded-update, succeeded-update_ne, known-update,
}
use tenant_billing_service.Schedule.Safety.{IsFlying, DiffersFrom, Fly, IsKnown, IsSafe}

-- Taking the n-th payment under way off the list.
module _ (rows : List PaymentAttempt) where
  Fly-get :
      (flights : List Flight) (n : ℕ) (f : Flight)
      → get_elem? flights n ≡ some f
      → Fly rows flights
      → IsFlying rows f
  Fly-get [] n f e h = cc
  Fly-get (g ∷ flights) zero f e (fly, _, _) = ground (arith, fly)
  Fly-get (g ∷ flights) (suc n) f e (_, _, rest) = Fly-get flights n f e rest

  All-erase :
      (f : Flight) (flights : List Flight) (n : ℕ)
      → All (DiffersFrom f) flights
      → All (DiffersFrom f) (erase_idx flights n)
  All-erase f [] n h = tt
  All-erase f (g ∷ flights) zero (_, h) = h
  All-erase f (g ∷ flights) (suc n) (d, h) = (d, All-erase f flights n h)

  Fly-erase : (flights : List Flight) (n : ℕ) → Fly rows flights → Fly rows (erase_idx flights n)
  Fly-erase [] n h = tt
  Fly-erase (g ∷ flights) zero (_, _, rest) = rest
  Fly-erase (g ∷ flights) (suc n) (fly, differ, rest) =
      (fly, All-erase g flights n differ, Fly-erase flights n rest)

  DiffersFrom-get :
      (g : Flight) (flights : List Flight) (n : ℕ) (f : Flight)
      → get_elem? flights n ≡ some f
      → All (DiffersFrom g) flights
      → DiffersFrom f g
  DiffersFrom-get g [] n f e h = cc
  DiffersFrom-get g (x ∷ flights) zero f e (d, _) = ground arith
  DiffersFrom-get g (x ∷ flights) (suc n) f e (_, h) = DiffersFrom-get g flights n f e h

  erase-differ :
      (flights : List Flight) (n : ℕ) (f : Flight)
      → get_elem? flights n ≡ some f
      → Fly rows flights
      → All (DiffersFrom f) (erase_idx flights n)
  erase-differ [] n f e h = tt
  erase-differ (g ∷ flights) zero f e (_, differ, _) = ground (arith, differ)
  erase-differ (g ∷ flights) (suc n) f e (_, differ, rest) =
      (DiffersFrom-get g flights n f e differ, erase-differ flights n f e rest)

-- An UPDATE of an invoice's state by its primary key.
module _ (i : ℕ) (set : Invoice → Invoice) (keeps : (x : Invoice) → (set x).id ≡ x.id) where
  pub any_invoice-update :
      (k : ℕ) (invoices : List Invoice)
      → any (has_invoice_id k) (update_where (has_invoice_id i) set invoices)
        ≡ any (has_invoice_id k) invoices
  any_invoice-update k [] = refl
  any_invoice-update k (x ∷ invoices) = ground (arith, keeps x, any_invoice-update k invoices)

  pub IsKnown-update :
      (invoices : List Invoice) (rows : List PaymentAttempt)
      → All (IsKnown invoices) rows
      → All (IsKnown (update_where (has_invoice_id i) set invoices)) rows
  IsKnown-update invoices [] h = tt
  IsKnown-update invoices (a ∷ rows) (k, h) =
      (rw (any_invoice-update a.invoice_id invoices) k, IsKnown-update invoices rows h)

  pub PaidIf-update_ne :
      (j : ℕ) (invoices : List Invoice)
      → (i == j) ≡ false
      → All (PaidIf j) invoices
      → All (PaidIf j) (update_where (has_invoice_id i) set invoices)
  PaidIf-update_ne j [] ne h = tt
  PaidIf-update_ne j (x ∷ invoices) ne (p, h) =
      (λ e. ground (arith, keeps x, p), PaidIf-update_ne j invoices ne h)

  PaidIf-update_self :
      ((x : Invoice) → (set x).state ≡ paid)
      → (invoices : List Invoice) → All (PaidIf i) (update_where (has_invoice_id i) set invoices)
  PaidIf-update_self pays [] = tt
  PaidIf-update_self pays (x ∷ invoices) =
      (λ e. ground (arith, pays x), PaidIf-update_self pays invoices)

-- An UPDATE of the attempt of the n-th payment under way, which then lands.
module _ (invoices : List Invoice) (rows : List PaymentAttempt) (flights : List Flight) (n : ℕ)
    (f : Flight) (safe : IsSafe invoices rows flights) (e : get_elem? flights n ≡ some f)
    (set : PaymentAttempt → PaymentAttempt)
    (keeps : (a : PaymentAttempt) → ((set a).id ≡ a.id) × ((set a).invoice_id ≡ a.invoice_id)) where
  abbrev new_rows : List PaymentAttempt
  new_rows = update_where (has_id f.attempt.id) set rows

  pends : All (PendsOn f.attempt.id f.invoice_id) rows
  pends = (Fly-get rows flights n f e safe.flying).pends

  Fly-update : (gs : List Flight) → All (DiffersFrom f) gs → Fly rows gs → Fly new_rows gs
  Fly-update [] d h = tt
  Fly-update (g ∷ gs) (d, ds) (fly, differ, rest) = (
    record {
      pends = PendsOn-update_ne f.attempt.id set keeps g.attempt.id g.invoice_id rows d fly.pends;
      stands = rw (any_id-update f.attempt.id set keeps g.attempt.id rows) fly.stands;
    },
    differ,
    Fly-update gs ds rest,
  )

  land-flying : Fly new_rows (erase_idx flights n)
  land-flying =
      Fly-update (erase_idx flights n) (erase-differ rows flights n f e safe.flying)
        (Fly-erase rows flights n safe.flying)

  land-one_live : (j : ℕ) → count (is_live_on j) new_rows ≤ 1
  land-one_live j =
      omega (arith, safe.one_live j, live-update f.attempt.id set keeps f.invoice_id j rows pends)

  land-IsKnown : All (IsKnown invoices) new_rows
  land-IsKnown = known-update f.attempt.id set keeps invoices rows safe.known

  -- With no new success and the invoices as they were.
  land-IsSafe :
      ((a : PaymentAttempt) → is_succeeded (set a).status ≡ true → is_succeeded a.status ≡ true)
      → IsSafe invoices new_rows (erase_idx flights n)
  land-IsSafe no_success = record {
    one_live = land-one_live;
    paid_up = λ j h.
        safe.paid_up j (omega (arith, succeeded-update f.attempt.id set keeps j rows no_success));
    known = land-IsKnown;
    flying = land-flying;
  }

  -- With the invoice set to `paid` in the same transaction.
  pay-IsSafe :
      (pay : Invoice → Invoice)
      → ((x : Invoice) → (pay x).id ≡ x.id)
      → ((x : Invoice) → (pay x).state ≡ paid)
      → IsSafe
          (update_where (has_invoice_id f.invoice_id) pay invoices)
          new_rows
          (erase_idx flights n)
  pay-IsSafe pay same_id pays = record {
    one_live = land-one_live;
    paid_up = λ j h. elim (Bool-cases (f.invoice_id == j)) [
      | inl same ↦
          rw (← (==_iff f.invoice_id j).0 same)
            (PaidIf-update_self f.invoice_id pay same_id pays invoices)
      | inr other ↦ PaidIf-update_ne f.invoice_id pay same_id j invoices other (
          safe.paid_up j (
            omega
              (arith, succeeded-update_ne f.attempt.id set keeps f.invoice_id j rows pends other)))
    ];
    known = IsKnown-update f.invoice_id pay same_id invoices new_rows land-IsKnown;
    flying = land-flying;
  }

-- A payment under way that stops leaves the tables.
pub crash-IsSafe :
    (invoices : List Invoice) (rows : List PaymentAttempt) (flights : List Flight) (n : ℕ)
    → IsSafe invoices rows flights
    → IsSafe invoices rows (erase_idx flights n)
crash-IsSafe invoices rows flights n safe = record {
  one_live = safe.one_live;
  paid_up = safe.paid_up;
  known = safe.known;
  flying = Fly-erase rows flights n safe.flying;
}

-- Every branch of the second transaction keeps the invariant.
pub Effect-IsSafe :
    (flights : List Flight) (n : ℕ) (f : Flight) (now : ℕ) (db db' : Db)
    → get_elem? flights n ≡ some f
    → Effect f.attempt.id f.invoice_id now db db'
    → IsSafe db.invoices db.payment_attempts flights
    → IsSafe db'.invoices db'.payment_attempts (erase_idx flights n)
Effect-IsSafe flights n f now db db' e (untouched same) safe =
    rw same (crash-IsSafe db.invoices db.payment_attempts flights n safe)
Effect-IsSafe flights n f now db db' e (unknown x attempts invoices) safe =
    rw (attempts, invoices)
      (land-IsSafe db.invoices db.payment_attempts flights n f safe e (unresolved x now)
        (λ a. (refl, refl)) (λ a h. h))
Effect-IsSafe flights n f now db db' e (declined r attempts invoices) safe =
    rw (attempts, invoices)
      (land-IsSafe db.invoices db.payment_attempts flights n f safe e (declined_by r now)
        (λ a. (refl, refl)) (λ a h. cc))
Effect-IsSafe flights n f now db db' e (settled r attempts invoices) safe =
    rw (attempts, invoices)
      (pay-IsSafe db.invoices db.payment_attempts flights n f safe e (paid_by r now)
        (λ a. (refl, refl)) (λ row. record row { state = paid; updated_at = now }) (λ x. refl)
        (λ x. refl))
