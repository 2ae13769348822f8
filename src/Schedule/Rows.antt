-- ===== src/Schedule/Rows.antt =====
-- Payment attempts counted by what they may still come to, and the tables under an INSERT and an
-- UPDATE.
use tenant_billing_service.Base.{
  ℕ, ◌+◌, ◌≤◌, ◌≡◌, refl, Bool, true, false, ◌&&◌, List, [], ◌∷◌, ◌++◌, arith, ◌==◌, any, count,
  select, update_where, All,
}
use tenant_billing_service.Model.Invoice.{Invoice, paid}
use tenant_billing_service.Model.Payment.{
  PaymentAttempt, PaymentStatus, succeeded, failed, is_pending,
}
use tenant_billing_service.Payment.Attempts.{has_id, is_pending_on}
use tenant_billing_service.Payment.Start.{invoice_of}
use tenant_billing_service.Payment.Resolve.{has_invoice_id}

abbrev pub is_succeeded : PaymentStatus → Bool
is_succeeded succeeded = true
is_succeeded _ = false

abbrev pub is_live : PaymentStatus → Bool
is_live failed = false
is_live _ = true

abbrev pub is_succeeded_on : ℕ → PaymentAttempt → Bool
is_succeeded_on i a = a.invoice_id == i && is_succeeded a.status

-- Attempts that the PSP has charged, or may have charged, or may still charge.
abbrev pub is_live_on : ℕ → PaymentAttempt → Bool
is_live_on i a = a.invoice_id == i && is_live a.status

pub count-live :
    (i : ℕ) (rows : List PaymentAttempt)
    → count (is_live_on i) rows ≡ count (is_pending_on i) rows + count (is_succeeded_on i) rows
count-live i [] = omega arith
count-live i (a ∷ rows) = ground (arith, count-live i rows)

-- The rows with an identifier are pending attempts on an invoice.
abbrev pub PendsOn : ℕ → ℕ → PaymentAttempt → Type 0
PendsOn id i a = has_id id a ≡ true → (is_pending a.status ≡ true) × (a.invoice_id ≡ i)

abbrev pub PaidIf : ℕ → Invoice → Type 0
PaidIf i invoice = has_invoice_id i invoice ≡ true → invoice.state ≡ paid

pub select-PaidIf :
    (b i : ℕ) (invoices : List Invoice) (found : Invoice) (others : List Invoice)
    → All (PaidIf i) invoices
    → select (invoice_of b i) invoices ≡ found ∷ others
    → found.state ≡ paid
select-PaidIf b i [] found others h e = cc
select-PaidIf b i (x ∷ invoices) found others h e =
    ground (arith, h.0, select-PaidIf b i invoices found others h.1)

pub select-known :
    (b i : ℕ) (invoices : List Invoice) (found : Invoice) (others : List Invoice)
    → select (invoice_of b i) invoices ≡ found ∷ others
    → any (has_invoice_id i) invoices ≡ true
select-known b i [] found others e = cc
select-known b i (x ∷ invoices) found others e =
    ground (arith, select-known b i invoices found others)

pub any-append_left {ℓ} :
    {A : Type ℓ} (p : A → Bool) (xs ys : List A) → any p xs ≡ true → any p (xs ++ ys) ≡ true
any-append_left p [] ys h = cc
any-append_left p (x ∷ xs) ys h = ground (arith, any-append_left p xs ys)

pub new-PendsOn :
    (id i : ℕ) (rows : List PaymentAttempt) → any (has_id id) rows ≡ false → All (PendsOn id i) rows
new-PendsOn id i [] h = tt
new-PendsOn id i (a ∷ rows) h = (λ e. ground arith, new-PendsOn id i rows (ground arith))

-- An UPDATE by primary key that keeps the keys of its row.
module _ (id : ℕ) (f : PaymentAttempt → PaymentAttempt)
    (keeps : (a : PaymentAttempt) → ((f a).id ≡ a.id) × ((f a).invoice_id ≡ a.invoice_id)) where
  pub any_id-update :
      (k : ℕ) (rows : List PaymentAttempt)
      → any (has_id k) (update_where (has_id id) f rows) ≡ any (has_id k) rows
  any_id-update k [] = refl
  any_id-update k (a ∷ rows) = ground (arith, keeps a, any_id-update k rows)

  pub PendsOn-update_ne :
      (k i : ℕ) (rows : List PaymentAttempt)
      → (k == id) ≡ false
      → All (PendsOn k i) rows
      → All (PendsOn k i) (update_where (has_id id) f rows)
  PendsOn-update_ne k i [] ne h = tt
  PendsOn-update_ne k i (a ∷ rows) ne h =
      (λ e. ground (arith, keeps a, h.0), PendsOn-update_ne k i rows ne h.1)

  -- A pending row stays one live attempt at most.
  pub live-update :
      (i j : ℕ) (rows : List PaymentAttempt)
      → All (PendsOn id i) rows
      → count (is_live_on j) (update_where (has_id id) f rows) ≤ count (is_live_on j) rows
  live-update i j [] h = omega arith
  live-update i j (a ∷ rows) h = ground (arith, keeps a, h.0, live-update i j rows h.1)

  -- Unless the update makes attempts succeed, it makes no more of them succeeded.
  pub succeeded-update :
      (j : ℕ) (rows : List PaymentAttempt)
      → ((a : PaymentAttempt) → is_succeeded (f a).status ≡ true → is_succeeded a.status ≡ true)
      → count (is_succeeded_on j) (update_where (has_id id) f rows) ≤ count (is_succeeded_on j) rows
  succeeded-update j [] h = omega arith
  succeeded-update j (a ∷ rows) h = ground (arith, keeps a, h a, succeeded-update j rows h)

  -- Other invoices' attempts are not touched.
  pub succeeded-update_ne :
      (i j : ℕ) (rows : List PaymentAttempt)
      → All (PendsOn id i) rows
      → (i == j) ≡ false
      → count (is_succeeded_on j) (update_where (has_id id) f rows) ≤ count (is_succeeded_on j) rows
  succeeded-update_ne i j [] h ne = omega arith
  succeeded-update_ne i j (a ∷ rows) h ne =
      ground (arith, keeps a, h.0, succeeded-update_ne i j rows h.1 ne)

  pub known-update :
      (invoices : List Invoice) (rows : List PaymentAttempt)
      → All (λ a. any (has_invoice_id a.invoice_id) invoices ≡ true) rows
      → All
          (λ a. any (has_invoice_id a.invoice_id) invoices ≡ true)
          (update_where (has_id id) f rows)
  known-update invoices [] h = tt
  known-update invoices (a ∷ rows) h = ground (arith, keeps a, known-update invoices rows h.1)
