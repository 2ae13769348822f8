-- ===== src/Base/Related.antt =====
-- A relation between two lists that have the same length, element by element.
use mathlib.Core.List.{List, [], ◌∷◌}

module _ {ℓ} {A : Type ℓ} where
  abbrev pub Pointwise : (A → A → Type 0) → List A → List A → Type 0
  Pointwise R [] [] = Unit
  Pointwise R [] (y ∷ ys) = ⊥
  Pointwise R (x ∷ xs) [] = ⊥
  Pointwise R (x ∷ xs) (y ∷ ys) = R x y × Pointwise R xs ys

  pub Pointwise-refl : (R : A → A → Type 0) → ((x : A) → R x x) → (xs : List A) → Pointwise R xs xs
  Pointwise-refl R same [] = tt
  Pointwise-refl R same (x ∷ xs) = (same x, Pointwise-refl R same xs)

  pub Pointwise-map :
      (R S : A → A → Type 0)
      → ((x y : A) → R x y → S x y)
      → (xs ys : List A) → Pointwise R xs ys
      → Pointwise S xs ys
  Pointwise-map R S f [] [] h = tt
  Pointwise-map R S f [] (y ∷ ys) h = absurd h
  Pointwise-map R S f (x ∷ xs) [] h = absurd h
  Pointwise-map R S f (x ∷ xs) (y ∷ ys) (r, h) = (f x y r, Pointwise-map R S f xs ys h)

  pub Pointwise-trans :
      (R S T : A → A → Type 0)
      → ((x y z : A) → R x y → S y z → T x z)
      → (xs ys zs : List A) → Pointwise R xs ys
      → Pointwise S ys zs
      → Pointwise T xs zs
  Pointwise-trans R S T f [] [] [] h k = tt
  Pointwise-trans R S T f [] [] (z ∷ zs) h k = absurd k
  Pointwise-trans R S T f [] (y ∷ ys) zs h k = absurd h
  Pointwise-trans R S T f (x ∷ xs) [] zs h k = absurd h
  Pointwise-trans R S T f (x ∷ xs) (y ∷ ys) [] h k = absurd k
  Pointwise-trans R S T f (x ∷ xs) (y ∷ ys) (z ∷ zs) (r, h) (s, k) =
      (f x y z r s, Pointwise-trans R S T f xs ys zs h k)
