-- ===== src/Auth/Texts.antt =====
-- The operations on texts that app/utils/api_keys.py and app/dependencies.py use: prefixes, the
-- comparison that ignores case, and `strip`.
use Prim.Native.String.{String, [], ◌∷◌, ◌++◌}
use text.Mathlib.TextLemmas.{nil-append, cons-append}
use Prim.Native.Char.{Char, code}
use tenant_billing_service.Base.{
  ℕ, zero, suc, ◌+◌, Bool, true, false, ◌&&◌, ◌||◌, ◌==◌, leb, if◌then◌else◌, ◌≡◌, refl, ap, arith,
}

-- `text[:n]`
abbrev pub take_text : ℕ → String → String
take_text zero s = ""
take_text (suc n) [] = ""
take_text (suc n) (c ∷ s) = c ∷ take_text n s

-- `c.lower()` for the letters A to Z; no other character has a lower case in "bearer".
abbrev pub lower_code : ℕ → ℕ
lower_code n = if leb 65 n && leb n 90 then n + 32 else n

-- Equal up to the case of A to Z.
abbrev pub same_lower : String → String → Bool
same_lower [] [] = true
same_lower [] (d ∷ t) = false
same_lower (c ∷ s) [] = false
same_lower (c ∷ s) (d ∷ t) = lower_code (code c) == lower_code (code d) && same_lower s t

-- `credentials.scheme.lower() == "bearer"`
unfoldable pub is_bearer : String → Bool
is_bearer scheme = same_lower scheme "bearer"

-- The characters that `str.strip()` takes off.
abbrev pub is_space : Char → Bool
is_space c =
    let n = code c in
    (leb 9 n && leb n 13)
    || ((leb 28 n && leb n 32)
        || ((n == 133)
            || ((n == 160)
                || ((n == 5760)
                    || ((leb 8192 n && leb n 8202)
                        || ((n == 8232)
                            || ((n == 8233) || ((n == 8239) || ((n == 8287) || (n == 12288))))))))))

unfoldable pub lstrip : String → String
lstrip [] = ""
lstrip (c ∷ s) = let rest = lstrip s in if is_space c then rest else c ∷ s

abbrev pub add_unless_end : Char → String → String
add_unless_end c [] = if is_space c then "" else c ∷ ""
add_unless_end c (d ∷ s) = c ∷ (d ∷ s)

unfoldable pub rstrip : String → String
rstrip [] = ""
rstrip (c ∷ s) = add_unless_end c (rstrip s)

unfoldable pub strip : String → String
strip s = rstrip (lstrip s)

abbrev pub has_space : String → Bool
has_space [] = false
has_space (c ∷ s) = is_space c || has_space s

has_space-append : (s t : String) → has_space (s ++ t) ≡ has_space s || has_space t
has_space-append [] t = ap has_space (nil-append t)
has_space-append (c ∷ s) t = rw (cons-append c s t) (ground (arith, has_space-append s t))

lstrip-same : (s : String) → has_space s ≡ false → lstrip s ≡ s
unfolding lstrip
lstrip-same [] h = refl
lstrip-same (c ∷ s) h = ground arith

end-same : (c : Char) (s : String) → is_space c ≡ false → add_unless_end c s ≡ c ∷ s
end-same c [] h = rw h refl
end-same c (d ∷ s) h = refl

rstrip-same : (s : String) → has_space s ≡ false → rstrip s ≡ s
unfolding rstrip
rstrip-same [] h = refl
rstrip-same (c ∷ s) h = ground (arith, rstrip-same s, end-same c s, end-same c (rstrip s))

-- A text with no white space is left by `strip`.
pub strip-same : (s : String) → has_space s ≡ false → strip s ≡ s
unfolding strip
strip-same s h = rw (lstrip-same s h) (rstrip-same s h)

pub strip-append :
    (s t : String) → has_space s ≡ false → has_space t ≡ false → strip (s ++ t) ≡ s ++ t
strip-append s t h k = strip-same (s ++ t) (ground (arith, has_space-append s t))
