-- ===== src/Signing/Decimal.antt =====
-- `int` and `str` on timestamps, as app/utils/signing.py uses them.
use Prim.Native.Nat.{◌/◌, ◌%◌}
use Prim.Native.Char.{Char}
use tenant_billing_service.Base.{
  ℕ, zero, suc, ◌+◌, ◌*◌, ◌≤◌, ◌<◌, ◌≡◌, refl, Bool, true, false, List, [], ◌∷◌, ◌++◌, ltb,
  if◌then◌else◌, arith, All, All-append, Bool-cases, inl, inr,
}

-- Whole numbers: `negsuc n` is -(n + 1).
pub data ℤ : Type 0 where
  pos negsuc : ℕ → ℤ

abbrev pub nth : List Char → ℕ → Char
nth [] n = "0"
nth (c ∷ cs) zero = c
nth (c ∷ cs) (suc n) = nth cs n

abbrev pub digit_char : ℕ → Char
digit_char d = nth ("0" ∷ "1" ∷ "2" ∷ "3" ∷ "4" ∷ "5" ∷ "6" ∷ "7" ∷ "8" ∷ "9" ∷ []) d

-- The decimal digits, the most significant first; `fuel` is at least the number.
unfoldable pub digit_list : ℕ → ℕ → List ℕ
digit_list zero n = n ∷ []
digit_list (suc fuel) n =
    let front = digit_list fuel (n / 10) in if ltb n 10 then n ∷ [] else front ++ n % 10 ∷ []

-- The value of digits after those that make `acc`.
abbrev pub digits_value : ℕ → List ℕ → ℕ
digits_value acc [] = acc
digits_value acc (d ∷ ds) = digits_value (acc * 10 + d) ds

digits_value-append :
    (acc : ℕ) (xs : List ℕ) (d : ℕ) → digits_value acc (xs ++ d ∷ []) ≡ digits_value acc xs * 10 + d
digits_value-append acc [] d = refl
digits_value-append acc (x ∷ xs) d = digits_value-append (acc * 10 + x) xs d

-- Enough fuel gives the digits of the number.
pub digit_list-value : (fuel n : ℕ) → n ≤ fuel → digits_value 0 (digit_list fuel n) ≡ n
unfolding digit_list
digit_list-value zero n h = omega arith
digit_list-value (suc fuel) n h = elim (Bool-cases (ltb n 10)) [
  | inl small ↦ rw small (omega arith)
  | inr large ↦
      rw (large, digits_value-append 0 (digit_list fuel (n / 10)) (n % 10))
        (let ge : 10 ≤ n = ground arith in
          let less : n / 10 ≤ fuel = omega arith in
          omega (arith, digit_list-value fuel (n / 10) less))
]

abbrev pub IsDigit : ℕ → Type 0
IsDigit d = d < 10

pub digit_list-IsDigit : (fuel n : ℕ) → n ≤ fuel → All IsDigit (digit_list fuel n)
unfolding digit_list
digit_list-IsDigit zero n h = (omega arith, tt)
digit_list-IsDigit (suc fuel) n h = elim (Bool-cases (ltb n 10)) [
  | inl small ↦ rw small (ground arith, tt)
  | inr large ↦ rw large (
      let ge : 10 ≤ n = ground arith in
      let less : n / 10 ≤ fuel = omega arith in
      All-append IsDigit (digit_list fuel (n / 10)) (n % 10 ∷ [])
        (digit_list-IsDigit fuel (n / 10) less) (omega arith, tt))
]

abbrev pub is_cons {ℓ} : {A : Type ℓ} → List A → Bool
is_cons [] = false
is_cons (x ∷ xs) = true

append-is_cons : (xs : List ℕ) (d : ℕ) → is_cons (xs ++ d ∷ []) ≡ true
append-is_cons [] d = refl
append-is_cons (x ∷ xs) d = refl

pub digit_list-is_cons : (fuel n : ℕ) → is_cons (digit_list fuel n) ≡ true
unfolding digit_list
digit_list-is_cons zero n = refl
digit_list-is_cons (suc fuel) n = elim (Bool-cases (ltb n 10)) [
  | inl small ↦ rw small refl
  | inr large ↦ rw large (append-is_cons (digit_list fuel (n / 10)) (n % 10))
]
