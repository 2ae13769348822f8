-- ===== src/Schedule/Safety.antt =====
-- No invoice is charged twice: the invariant of the payments under way and the tables, under every
-- sequence of pieces in which transitions are not interrupted.
use tenant_billing_service.Base.{
  ℕ, zero, suc, ◌≤◌, ◌<◌, ◌≡◌, refl, ap, ◌⊎◌, inl, inr, Bool, true, false, List, [], ◌∷◌, ◌++◌,
  arith, ◌==◌, ==_iff, any, count, select, All, All-append, count-append, any-count, Bool-cases,
}
use tenant_billing_service.Model.Invoice.{Invoice, open_}
use tenant_billing_service.Model.Payment.{PaymentAttempt, pending}
use tenant_billing_service.Payment.Attempts.{has_id, is_pending_on}
use tenant_billing_service.Payment.Insert.{Admits}
use tenant_billing_service.Payment.Start.{invoice_of}
use tenant_billing_service.Payment.Resolve.{has_invoice_id}
use tenant_billing_service.Schedule.{Flight}
use tenant_billing_service.Schedule.Rows.{
  is_live_on, is_succeeded_on, count-live, PendsOn, PaidIf, select-PaidIf, select-known,
  any-append_left, new-PendsOn,
}

-- The attempt of a payment under way stands in the table, once, and is pending on its invoice.
pub record IsFlying (rows : List PaymentAttempt) (f : Flight) : Type 0 where
  pub pends : All (PendsOn f.attempt.id f.invoice_id) rows
  pub stands : any (has_id f.attempt.id) rows ≡ true

abbrev pub DiffersFrom : Flight → Flight → Type 0
DiffersFrom f g = (g.attempt.id == f.attempt.id) ≡ false

-- All payments under way are so, and no two have one attempt.
abbrev pub Fly : List PaymentAttempt → List Flight → Type 0
Fly rows [] = Unit
Fly rows (f ∷ flights) = IsFlying rows f × All (DiffersFrom f) flights × Fly rows flights

abbrev pub IsKnown : List Invoice → PaymentAttempt → Type 0
IsKnown invoices a = any (has_invoice_id a.invoice_id) invoices ≡ true

pub record IsSafe (invoices : List Invoice) (rows : List PaymentAttempt) (flights : List Flight)
    : Type 0 where
  pub one_live : (i : ℕ) → count (is_live_on i) rows ≤ 1
  pub paid_up : (i : ℕ) → 0 < count (is_succeeded_on i) rows → All (PaidIf i) invoices
  pub known : All (IsKnown invoices) rows
  pub flying : Fly rows flights

-- An INSERT of a new pending attempt.
module _ (a : PaymentAttempt) (rows : List PaymentAttempt)
    (new_id : any (has_id a.id) rows ≡ false) where
  PendsOn-append :
      (k i : ℕ) → (k == a.id) ≡ false → All (PendsOn k i) rows → All (PendsOn k i) (rows ++ a ∷ [])
  PendsOn-append k i ne h = All-append (PendsOn k i) rows (a ∷ []) h (λ e. ground arith, tt)

  new_differs : (k : ℕ) → any (has_id k) rows ≡ true → (k == a.id) ≡ false
  new_differs k h = elim (Bool-cases (k == a.id)) [
    | inl e ↦ let p = (==_iff k a.id).0 e in cc (new_id, h, ap (λ (n : ℕ). any (has_id n) rows) p)
    | inr e ↦ e
  ]

  IsFlying-append : (f : Flight) → IsFlying rows f → IsFlying (rows ++ a ∷ []) f
  IsFlying-append f h = record {
    pends = PendsOn-append f.attempt.id f.invoice_id (new_differs f.attempt.id h.stands) h.pends;
    stands = any-append_left (has_id f.attempt.id) rows (a ∷ []) h.stands;
  }

  Fly-append : (flights : List Flight) → Fly rows flights → Fly (rows ++ a ∷ []) flights
  Fly-append [] h = tt
  Fly-append (f ∷ flights) (fly, differ, rest) =
      (IsFlying-append f fly, differ, Fly-append flights rest)

  others_differ :
      (f : Flight) (flights : List Flight)
      → f.attempt.id ≡ a.id
      → Fly rows flights
      → All (DiffersFrom f) flights
  others_differ f [] e h = tt
  others_differ f (g ∷ flights) e (fly, _, rest) =
      (rw e (new_differs g.attempt.id fly.stands), others_differ f flights e rest)

any-append_last {ℓ} :
    {A : Type ℓ} (p : A → Bool) (xs : List A) (y : A) → p y ≡ true → any p (xs ++ y ∷ []) ≡ true
any-append_last p [] y h = ground arith
any-append_last p (x ∷ xs) y h = ground (arith, any-append_last p xs y)

pub zero_or_pos : (n : ℕ) → (n ≡ 0) ⊎ (0 < n)
zero_or_pos zero = inl refl
zero_or_pos (suc n) = inr (omega arith)

-- An open invoice with no pending attempt has no live one.
no_live :
    (b i : ℕ) (invoices : List Invoice) (rows : List PaymentAttempt) (found : Invoice)
    → (0 < count (is_succeeded_on i) rows → All (PaidIf i) invoices)
    → select (invoice_of b i) invoices ≡ found ∷ []
    → found.state ≡ open_
    → any (is_pending_on i) rows ≡ false
    → count (is_live_on i) rows ≡ 0
no_live b i invoices rows found paid_up e is_open idle =
    elim (zero_or_pos (count (is_succeeded_on i) rows)) [
      | inl z ↦ omega (arith, count-live i rows, any-count (is_pending_on i) rows idle)
      | inr p ↦ let is_paid = select-PaidIf b i invoices found [] (paid_up p) e in cc
    ]

module _ (invoices : List Invoice) (rows : List PaymentAttempt) (flights : List Flight)
    (safe : IsSafe invoices rows flights) (a : PaymentAttempt) (admitted : Admits a rows)
    (is_new : a.status ≡ pending) (b : ℕ) (found : Invoice)
    (e : select (invoice_of b a.invoice_id) invoices ≡ found ∷ [])
    (is_open : found.state ≡ open_) where
  one_live-append : (j : ℕ) → count (is_live_on j) (rows ++ a ∷ []) ≤ 1
  one_live-append j = elim (Bool-cases (a.invoice_id == j)) [
    | inl same ↦
        let j_is = (==_iff a.invoice_id j).0 same in
        rw (← j_is) (
          ground (
            arith,
            count-append (is_live_on a.invoice_id) rows (a ∷ []),
            no_live b a.invoice_id invoices rows found (safe.paid_up a.invoice_id) e is_open
                (ground (arith, admitted.one_pending)),
          ))
    | inr other ↦ ground (arith, count-append (is_live_on j) rows (a ∷ []), safe.one_live j)
  ]

  succeeded-append :
      (j : ℕ) → count (is_succeeded_on j) (rows ++ a ∷ []) ≡ count (is_succeeded_on j) rows
  succeeded-append j = ground (arith, count-append (is_succeeded_on j) rows (a ∷ []))

  pub begin-IsSafe :
      (f : Flight)
      → f.attempt ≡ a
      → f.invoice_id ≡ a.invoice_id
      → IsSafe invoices (rows ++ a ∷ []) (f ∷ flights)
  begin-IsSafe f of_a of_i = record {
    one_live = one_live-append;
    paid_up = λ j h. safe.paid_up j (rw (succeeded-append j) at h);
    known =
        All-append (IsKnown invoices) rows (a ∷ []) safe.known
          (select-known b a.invoice_id invoices found [] e, tt);
    flying = (
      record {
        pends =
            All-append (PendsOn f.attempt.id f.invoice_id) rows (a ∷ [])
              (new-PendsOn f.attempt.id f.invoice_id rows (ground (arith, admitted.new_id)))
              (λ _. ground arith, tt);
        stands = any-append_last (has_id f.attempt.id) rows a (ground arith);
      },
      others_differ a rows admitted.new_id f flights (ap (λ (x : PaymentAttempt). x.id) of_a)
          safe.flying,
      Fly-append a rows admitted.new_id flights safe.flying,
    );
  }
