-- ===== src/Signing/Headers.antt =====
-- The signature header: items that commas separate, each a name and a value with "=" between them.
use Prim.Native.Char.{Char, code}
use Prim.Native.String.{String, [], ◌∷◌, ◌++◌}
use text.Mathlib.TextLemmas.{nil-append, cons-append}
use mathlib.Core.List.{List, [] as none_left, ◌∷◌ as ◌+item+◌}
use tenant_billing_service.Base.{
  ℕ, ◌≡◌, refl, Bool, true, false, Option, none, some, ◌==◌, ltb, ◌&&◌, str_eq, if◌then◌else◌,
  arith,
}
use tenant_billing_service.Signing.Numerals.{has_code}

abbrev pub add_to_first : Char → List String → List String
add_to_first c none_left = (c ∷ "") +item+ none_left
add_to_first c (item +item+ items) = (c ∷ item) +item+ items

-- `text.split(sep)`, by the code of the separator
unfoldable pub split : ℕ → String → List String
split k [] = "" +item+ none_left
split k (c ∷ s) =
    let rest = split k s in if code c == k then "" +item+ rest else add_to_first c rest

abbrev pub add_to_name : Char → Option (String × String) → Option (String × String)
add_to_name c none = none
add_to_name c (some (name, value)) = some (c ∷ name, value)

-- `item.split("=", 1)` as a pair; an item with no "=" is no pair.
unfoldable pub split_first : String → Option (String × String)
split_first [] = none
split_first (c ∷ s) =
    let rest = split_first s in if code c == 61 then some ("", s) else add_to_name c rest

abbrev pub Pairs : Type 0
Pairs = List (String × String)

abbrev pub add_pair : Option (String × String) → Option Pairs → Option Pairs
add_pair none rest = none
add_pair (some p) none = none
add_pair (some p) (some ps) = some (p +item+ ps)

unfoldable pub pairs_of : List String → Option Pairs
pairs_of none_left = some none_left
pairs_of (item +item+ items) = add_pair (split_first item) (pairs_of items)

-- `dict(item.split("=", 1) for item in signature_header.split(","))`; `none` is a ValueError.
unfoldable pub parse_header : String → Option Pairs
parse_header header = pairs_of (split 44 header)

abbrev pub later_or : Option String → Bool → String → Option String
later_or (some v) same value = some v
later_or none same value = if same then some value else none

-- The value of a key; of equal keys the last one counts.
unfoldable pub lookup : String → Pairs → Option String
lookup key none_left = none
lookup key ((name, value) +item+ ps) = later_or (lookup key ps) (str_eq name key) value

abbrev pub is_ascii : String → Bool
is_ascii [] = true
is_ascii (c ∷ s) = ltb (code c) 128 && is_ascii s

pub split-none : (k : ℕ) (s : String) → has_code k s ≡ false → split k s ≡ s +item+ none_left
unfolding split
split-none k [] h = refl
split-none k (c ∷ s) h =
    let other : (code c == k) ≡ false = ground arith in
    rw (other, split-none k s (ground arith)) refl

-- A text with no separator, a separator, and a rest.
pub split-at :
    (k : ℕ) (s : String) (c : Char) (t : String)
    → has_code k s ≡ false
    → (code c == k) ≡ true
    → split k (s ++ (c ∷ t)) ≡ s +item+ split k t
unfolding split
split-at k [] c t h sep = rw (nil-append (c ∷ t), sep) refl
split-at k (x ∷ s) c t h sep =
    let other : (code x == k) ≡ false = ground arith in
    rw (cons-append x s (c ∷ t), other, split-at k s c t (ground arith) sep) refl
