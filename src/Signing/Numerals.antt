-- ===== src/Signing/Numerals.antt =====
-- Numerals as texts: `str`, and `int` with its white space, sign and underscores. Of the characters
-- of a header only 0 to 9 are decimal digits.
use Prim.Native.Char.{Char, code}
use Prim.Native.String.{String, [], ◌∷◌}
use mathlib.Core.List.{List, [] as none_left, ◌∷◌ as ◌+digit+◌}
use tenant_billing_service.Base.{
  ℕ, zero, suc, ◌+◌, ◌-◌, ◌*◌, ◌<◌, ◌≡◌, refl, Bool, true, false, Option, none, some, ◌==◌, leb,
  ◌&&◌, ◌||◌, if◌then◌else◌, arith, All,
}
use tenant_billing_service.Auth.Texts.{has_space, strip, strip-same}
use tenant_billing_service.Signing.Decimal.{
  ℤ, pos, negsuc, digit_char, digit_list, digits_value, digit_list-value, digit_list-IsDigit,
  IsDigit, is_cons, digit_list-is_cons,
}

abbrev pub text_of : List ℕ → String
text_of none_left = ""
text_of (d +digit+ ds) = digit_char d ∷ text_of ds

unfoldable pub decimal : ℕ → String
decimal n = text_of (digit_list n n)

-- `str(timestamp)`
unfoldable pub str_int : ℤ → String
str_int (pos n) = decimal n
str_int (negsuc n) = "-" ∷ decimal (suc n)

abbrev pub is_digit : Char → Bool
is_digit c = leb 48 (code c) && leb (code c) 57

-- Digits with single underscores between them; `after_digit` says that a digit came before.
unfoldable pub parse_digits : Bool → ℕ → String → Option ℕ
parse_digits after_digit acc [] = if after_digit then some acc else none
parse_digits after_digit acc (c ∷ s) =
    let more = parse_digits true (acc * 10 + (code c - 48)) s in
    let skip = parse_digits false acc s in
    if is_digit c then more else if (code c == 95) && after_digit then skip else none

abbrev pub positive : Option ℕ → Option ℤ
positive none = none
positive (some n) = some (pos n)

abbrev pub negated : ℕ → ℤ
negated zero = pos 0
negated (suc n) = negsuc n

abbrev pub negative : Option ℕ → Option ℤ
negative none = none
negative (some n) = some (negated n)

abbrev pub parse_signed : String → Option ℤ
parse_signed [] = none
parse_signed (c ∷ s) =
    if code c == 45
    then negative (parse_digits false 0 s)
    else if code c == 43
    then positive (parse_digits false 0 s)
    else positive (parse_digits false 0 (c ∷ s))

-- `int(text)`; `none` is a ValueError.
unfoldable pub parse_int : String → Option ℤ
parse_int s = parse_signed (strip s)

-- The characters of the digits.
digit-code : (d : ℕ) → d < 10 → code (digit_char d) ≡ 48 + d
digit-code zero h = refl
digit-code (suc zero) h = refl
digit-code (suc (suc zero)) h = refl
digit-code (suc (suc (suc zero))) h = refl
digit-code (suc (suc (suc (suc zero)))) h = refl
digit-code (suc (suc (suc (suc (suc zero))))) h = refl
digit-code (suc (suc (suc (suc (suc (suc zero)))))) h = refl
digit-code (suc (suc (suc (suc (suc (suc (suc zero))))))) h = refl
digit-code (suc (suc (suc (suc (suc (suc (suc (suc zero)))))))) h = refl
digit-code (suc (suc (suc (suc (suc (suc (suc (suc (suc zero))))))))) h = refl
digit-code (suc (suc (suc (suc (suc (suc (suc (suc (suc (suc d)))))))))) h = absurd (omega arith)

parse_digits-step :
    (b : Bool) (acc d : ℕ) (s : String)
    → d < 10
    → parse_digits b acc (digit_char d ∷ s) ≡ parse_digits true (acc * 10 + d) s
unfolding parse_digits
parse_digits-step b acc d s h =
    let e : code (digit_char d) - 48 ≡ d = omega (arith, digit-code d h) in
    let yes_ : is_digit (digit_char d) ≡ true = ground (arith, digit-code d h) in rw (yes_, e) refl

parse_digits-text :
    (acc : ℕ) (ds : List ℕ)
    → All IsDigit ds
    → parse_digits true acc (text_of ds) ≡ some (digits_value acc ds)
unfolding parse_digits
parse_digits-text acc none_left h = refl
parse_digits-text acc (d +digit+ ds) (p, h) =
    rw (parse_digits-step true acc d (text_of ds) p) (parse_digits-text (acc * 10 + d) ds h)

parse_digits-first :
    (ds : List ℕ)
    → All IsDigit ds
    → is_cons ds ≡ true
    → parse_digits false 0 (text_of ds) ≡ some (digits_value 0 ds)
parse_digits-first none_left h k = cc
parse_digits-first (d +digit+ ds) (p, h) k =
    rw (parse_digits-step false 0 d (text_of ds) p) (parse_digits-text (0 * 10 + d) ds h)

pub parse_digits-decimal : (n : ℕ) → parse_digits false 0 (decimal n) ≡ some n
unfolding decimal
parse_digits-decimal n =
    rw
      (
        parse_digits-first (digit_list n n) (digit_list-IsDigit n n (omega arith))
            (digit_list-is_cons n n),
        digit_list-value n n (omega arith),
      )
      refl

abbrev pub has_code : ℕ → String → Bool
has_code k [] = false
has_code k (c ∷ s) = (code c == k) || has_code k s

-- A numeral has no other characters than digits and a sign.
text_of-code :
    (k : ℕ) (ds : List ℕ)
    → All IsDigit ds
    → (leb 48 k && leb k 57) ≡ false
    → has_code k (text_of ds) ≡ false
text_of-code k none_left h out = refl
text_of-code k (d +digit+ ds) (p, h) out = ground (arith, digit-code d p, text_of-code k ds h out)

text_of-space : (ds : List ℕ) → All IsDigit ds → has_space (text_of ds) ≡ false
text_of-space none_left h = refl
text_of-space (d +digit+ ds) (p, h) = ground (arith, digit-code d p, text_of-space ds h)

decimal-code : (k n : ℕ) → (leb 48 k && leb k 57) ≡ false → has_code k (decimal n) ≡ false
unfolding decimal
decimal-code k n out = text_of-code k (digit_list n n) (digit_list-IsDigit n n (omega arith)) out

decimal-space : (n : ℕ) → has_space (decimal n) ≡ false
unfolding decimal
decimal-space n = text_of-space (digit_list n n) (digit_list-IsDigit n n (omega arith))

str_int-space : (t : ℤ) → has_space (str_int t) ≡ false
unfolding str_int
str_int-space (pos n) = decimal-space n
str_int-space (negsuc n) = decimal-space (suc n)

pub str_int-comma : (t : ℤ) → has_code 44 (str_int t) ≡ false
unfolding str_int
str_int-comma (pos n) = decimal-code 44 n refl
str_int-comma (negsuc n) = decimal-code 44 (suc n) refl

-- A text of digits alone has no sign.
parse_signed-digits :
    (s : String) (n : ℕ)
    → has_code 45 s ≡ false
    → has_code 43 s ≡ false
    → parse_digits false 0 s ≡ some n
    → parse_signed s ≡ some (pos n)
unfolding parse_digits
parse_signed-digits [] n minus plus e = cc
parse_signed-digits (c ∷ s) n minus plus e = ground arith

parse_signed-str_int : (t : ℤ) → parse_signed (str_int t) ≡ some t
unfolding str_int
parse_signed-str_int (pos n) =
    parse_signed-digits (decimal n) n (decimal-code 45 n refl) (decimal-code 43 n refl)
      (parse_digits-decimal n)
parse_signed-str_int (negsuc n) = rw (parse_digits-decimal (suc n)) refl

-- `int(str(t)) == t` for every whole number.
pub parse_int-str_int : (t : ℤ) → parse_int (str_int t) ≡ some t
unfolding parse_int
parse_int-str_int t = rw (strip-same (str_int t) (str_int-space t)) (parse_signed-str_int t)
