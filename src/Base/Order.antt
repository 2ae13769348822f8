-- ===== src/Base/Order.antt =====
-- ORDER BY, LIMIT and OFFSET on rows: a stable sort, and pages of a list.
use Prim.Native.Nat.{ℕ, zero, suc, ◌+◌, ◌≤◌}
use mathlib.Core.Path.{◌≡◌, refl, ap}
use mathlib.Core.Logic.{inl, inr}
use mathlib.Core.Bool.{Bool, true, false}
use mathlib.Core.List.{List, [], ◌∷◌, ◌++◌}
use native.Mathlib.Omega.{arith}
use tenant_billing_service.Base.Tests.{if◌then◌else◌, Bool-cases}
use tenant_billing_service.Base.Rows.{All, length, select}

suc-add : (n m : ℕ) → suc n + m ≡ suc (n + m)
suc-add n m = omega arith

module _ {ℓ} {A : Type ℓ} where
  abbrev pub take : ℕ → List A → List A
  take zero xs = []
  take (suc n) [] = []
  take (suc n) (x ∷ xs) = x ∷ take n xs

  abbrev pub drop : ℕ → List A → List A
  drop zero xs = xs
  drop (suc n) [] = []
  drop (suc n) (x ∷ xs) = drop n xs

  -- `.offset(skip).limit(limit)`
  abbrev pub page : ℕ → ℕ → List A → List A
  page skip limit xs = take limit (drop skip xs)

  -- `before x y` says that x may stand before y.
  unfoldable pub insert_by : (A → A → Bool) → A → List A → List A
  insert_by before x [] = x ∷ []
  insert_by before x (y ∷ ys) =
      let later = insert_by before x ys in if before x y then x ∷ y ∷ ys else y ∷ later

  unfoldable pub sort_by : (A → A → Bool) → List A → List A
  sort_by before [] = []
  sort_by before (x ∷ xs) = insert_by before x (sort_by before xs)

  abbrev pub InOrder : (A → A → Bool) → List A → Type 0
  InOrder before [] = Unit
  InOrder before (x ∷ xs) = All (λ y. before x y ≡ true) xs × InOrder before xs

  pub length-take_le : (n : ℕ) (xs : List A) → length (take n xs) ≤ n
  length-take_le zero xs = omega arith
  length-take_le (suc n) [] = omega arith
  length-take_le (suc n) (x ∷ xs) = omega (arith, length-take_le n xs)

  take-nil : (n : ℕ) → take n [] ≡ []
  take-nil zero = refl
  take-nil (suc n) = refl

  drop-nil : (n : ℕ) → drop n [] ≡ []
  drop-nil zero = refl
  drop-nil (suc n) = refl

  -- A page of n rows and the page of m rows after it are the page of n + m rows.
  take-page : (n m : ℕ) (xs : List A) → take n xs ++ take m (drop n xs) ≡ take (n + m) xs
  take-page zero m xs = ground arith
  take-page (suc n) m [] = ground (arith, take-nil m, take-nil (suc n + m))
  take-page (suc n) m (x ∷ xs) = rw (suc-add n m) (ap (λ ys. x ∷ ys) (take-page n m xs))

  drop-drop : (n m : ℕ) (xs : List A) → drop m (drop n xs) ≡ drop (n + m) xs
  drop-drop zero m xs = ground arith
  drop-drop (suc n) m [] = ground (arith, drop-nil m, drop-nil (suc n + m))
  drop-drop (suc n) m (x ∷ xs) = rw (suc-add n m) (drop-drop n m xs)

  pub page-page :
      (skip n m : ℕ) (xs : List A) → page skip n xs ++ page (skip + n) m xs ≡ page skip (n + m) xs
  page-page skip n m xs = rw (← drop-drop skip n xs) (take-page n m (drop skip xs))

  module _ (P : A → Type 0) where
    pub All-take : (n : ℕ) (xs : List A) → All P xs → All P (take n xs)
    All-take zero xs h = tt
    All-take (suc n) [] h = tt
    All-take (suc n) (x ∷ xs) (p, h) = (p, All-take n xs h)

    pub All-drop : (n : ℕ) (xs : List A) → All P xs → All P (drop n xs)
    All-drop zero xs h = h
    All-drop (suc n) [] h = tt
    All-drop (suc n) (x ∷ xs) (p, h) = All-drop n xs h

    pub All-select :
        (p : A → Bool) → ((x : A) → p x ≡ true → P x) → (xs : List A) → All P (select p xs)
    All-select p holds [] = tt
    All-select p holds (x ∷ xs) = elim (Bool-cases (p x)) [
      | inl yes_ ↦ rw yes_ (holds x yes_, All-select p holds xs)
      | inr no_ ↦ rw no_ (All-select p holds xs)
    ]

  module _ (before : A → A → Bool) where
    All-insert :
        (P : A → Type 0) (x : A) (xs : List A) → P x → All P xs → All P (insert_by before x xs)
    unfolding insert_by
    All-insert P x [] p h = (p, tt)
    All-insert P x (y ∷ xs) p (q, h) = elim (Bool-cases (before x y)) [
      | inl first ↦ rw first (p, (q, h))
      | inr later ↦ rw later (q, All-insert P x xs p h)
    ]

    pub All-sort : (P : A → Type 0) (xs : List A) → All P xs → All P (sort_by before xs)
    unfolding sort_by
    All-sort P [] h = tt
    All-sort P (x ∷ xs) (p, h) = All-insert P x (sort_by before xs) p (All-sort P xs h)

    length-insert : (x : A) (xs : List A) → length (insert_by before x xs) ≡ suc (length xs)
    unfolding insert_by
    length-insert x [] = refl
    length-insert x (y ∷ xs) = ground (arith, length-insert x xs)

    pub length-sort : (xs : List A) → length (sort_by before xs) ≡ length xs
    unfolding sort_by
    length-sort [] = refl
    length-sort (x ∷ xs) = omega (arith, length-insert x (sort_by before xs), length-sort xs)

    pub InOrder-take : (n : ℕ) (xs : List A) → InOrder before xs → InOrder before (take n xs)
    InOrder-take zero xs h = tt
    InOrder-take (suc n) [] h = tt
    InOrder-take (suc n) (x ∷ xs) (first, h) =
        (All-take (λ y. before x y ≡ true) n xs first, InOrder-take n xs h)

    pub InOrder-drop : (n : ℕ) (xs : List A) → InOrder before xs → InOrder before (drop n xs)
    InOrder-drop zero xs h = h
    InOrder-drop (suc n) [] h = tt
    InOrder-drop (suc n) (x ∷ xs) (_, h) = InOrder-drop n xs h

    -- The sort puts rows in order, if the comparison is total and transitive.
    module _ (total : (x y : A) → before x y ≡ false → before y x ≡ true)
        (trans : (x y z : A) → before x y ≡ true → before y z ≡ true → before x z ≡ true) where
      All-trans :
          (x y : A) (xs : List A)
          → before x y ≡ true
          → All (λ z. before y z ≡ true) xs
          → All (λ z. before x z ≡ true) xs
      All-trans x y [] le h = tt
      All-trans x y (z ∷ xs) le (p, h) = (trans x y z le p, All-trans x y xs le h)

      InOrder-insert :
          (x : A) (xs : List A) → InOrder before xs → InOrder before (insert_by before x xs)
      unfolding insert_by
      InOrder-insert x [] h = (tt, tt)
      InOrder-insert x (y ∷ xs) (first, h) = elim (Bool-cases (before x y)) [
        | inl le ↦ rw le ((le, All-trans x y xs le first), (first, h))
        | inr later ↦ rw later (
          All-insert (λ z. before y z ≡ true) x xs (total x y later) first,
          InOrder-insert x xs h,
        )
      ]

      pub InOrder-sort : (xs : List A) → InOrder before (sort_by before xs)
      unfolding sort_by
      InOrder-sort [] = tt
      InOrder-sort (x ∷ xs) = InOrder-insert x (sort_by before xs) (InOrder-sort xs)
