-- ===== src/Base/Rows.antt =====
-- Tables as lists of rows: selection by a Boolean test, counting, and writing the selected rows.
use Prim.Native.Nat.{ℕ, suc, ◌+◌}
use mathlib.Core.Path.{◌≡◌, refl}
use mathlib.Core.Bool.{Bool, true, false}
use mathlib.Core.List.{List, [], ◌∷◌, ◌++◌}
use mathlib.Core.Option.{Option, none, some}
use native.Mathlib.Omega.{arith}
use tenant_billing_service.Base.Tests.{if◌then◌else◌}

module _ {ℓ} {A : Type ℓ} where
  abbrev pub length : List A → ℕ
  length [] = 0
  length (x ∷ xs) = suc (length xs)

  -- The rows of which the condition holds, in the order of the table.
  abbrev pub select : (A → Bool) → List A → List A
  select p [] = []
  select p (x ∷ xs) = let rest = select p xs in if p x then x ∷ rest else rest

  abbrev pub count : (A → Bool) → List A → ℕ
  count p [] = 0
  count p (x ∷ xs) = let rest = count p xs in if p x then suc rest else rest

  abbrev pub any : (A → Bool) → List A → Bool
  any p [] = false
  any p (x ∷ xs) = let rest = any p xs in if p x then true else rest

  -- The first row of which the condition holds.
  abbrev pub find_row : (A → Bool) → List A → Option A
  find_row p [] = none
  find_row p (x ∷ xs) = let rest = find_row p xs in if p x then some x else rest

  -- Rewrites the rows of which the condition holds, and leaves the others.
  abbrev pub update_where : (A → Bool) → (A → A) → List A → List A
  update_where p f [] = []
  update_where p f (x ∷ xs) = (if p x then f x else x) ∷ update_where p f xs

  pub length-append : (xs ys : List A) → length (xs ++ ys) ≡ length xs + length ys
  length-append [] ys = omega arith
  length-append (x ∷ xs) ys = omega (arith, length-append xs ys)

  pub count-append : (p : A → Bool) (xs ys : List A) → count p (xs ++ ys) ≡ count p xs + count p ys
  count-append p [] ys = omega arith
  count-append p (x ∷ xs) ys = ground (arith, count-append p xs ys)

  pub any-count : (p : A → Bool) (xs : List A) → any p xs ≡ false → count p xs ≡ 0
  any-count p [] h = refl
  any-count p (x ∷ xs) h = ground (arith, any-count p xs)

  pub any-select : (p : A → Bool) (xs : List A) → select p xs ≡ [] → any p xs ≡ false
  any-select p [] h = refl
  any-select p (x ∷ xs) h = ground (arith, any-select p xs)

  pub count-length : (p : A → Bool) (xs : List A) → count p xs ≡ length (select p xs)
  count-length p [] = refl
  count-length p (x ∷ xs) = ground (arith, count-length p xs)

  -- A predicate of every row.
  abbrev pub All {κ} : (A → Type κ) → List A → Type κ
  All P [] = Unit
  All P (x ∷ xs) = P x × All P xs

  pub All-append {κ} : (P : A → Type κ) (xs ys : List A) → All P xs → All P ys → All P (xs ++ ys)
  All-append P [] ys _ k = k
  All-append P (x ∷ xs) ys (p, h) k = (p, All-append P xs ys h k)

pub select-append {ℓ} :
    {A : Type ℓ} (p : A → Bool) (xs ys : List A) → select p (xs ++ ys) ≡ select p xs ++ select p ys
select-append p [] ys = refl
select-append p (x ∷ xs) ys = ground (arith, select-append p xs ys)

pub select-none {ℓ} :
    {A : Type ℓ} (p : A → Bool) (xs : List A) → any p xs ≡ false → select p xs ≡ []
select-none p [] h = refl
select-none p (x ∷ xs) h = ground (arith, select-none p xs)

pub select-update {ℓ} :
    {A : Type ℓ} (p q : A → Bool) (f : A → A)
    → ((x : A) → p (f x) ≡ p x)
    → (xs : List A) → select p (update_where q f xs) ≡ update_where q f (select p xs)
select-update p q f keeps [] = refl
select-update p q f keeps (x ∷ xs) = ground (arith, keeps x, select-update p q f keeps xs)

pub select-head {ℓ} :
    {A : Type ℓ} (p : A → Bool) (xs : List A) (x : A) (ys : List A)
    → select p xs ≡ x ∷ ys
    → p x ≡ true
select-head p [] x ys h = cc
select-head p (y ∷ xs) x ys h = ground (arith, select-head p xs x ys)

-- A row that one query finds does not pass a test that no row passes.
select_empty {ℓ} :
    {A : Type ℓ} (p q : A → Bool) (xs : List A) (x : A) (ys : List A)
    → select p xs ≡ x ∷ ys
    → select q xs ≡ []
    → q x ≡ false
select_empty p q [] x ys found none_ = cc
select_empty p q (z ∷ xs) x ys found none_ = ground (arith, select_empty p q xs x ys)

-- Two queries that both find a row, the second only one, find the same.
pub select_unique {ℓ} :
    {A : Type ℓ} (p q : A → Bool) (xs : List A) (x y : A) (ys : List A)
    → select p xs ≡ x ∷ ys
    → q x ≡ true
    → select q xs ≡ y ∷ []
    → x ≡ y
select_unique p q [] x y ys found passes only = cc
select_unique p q (z ∷ xs) x y ys found passes only =
    ground (arith, select_unique p q xs x y ys, select_empty p q xs x ys)

-- An UPDATE of a row that was appended, by a condition that no row before it meets.
pub update-last {ℓ} :
    {A : Type ℓ} (p : A → Bool) (f : A → A) (xs : List A) (x : A)
    → any p xs ≡ false
    → p x ≡ true
    → update_where p f (xs ++ x ∷ []) ≡ xs ++ f x ∷ []
update-last p f [] x h is = rw is refl
update-last p f (y ∷ xs) x h is = ground (arith, update-last p f xs x)
