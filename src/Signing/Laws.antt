-- ===== src/Signing/Laws.antt =====
-- What the receiver of a webhook can rely on.
use Prim.Native.Char.{Char}
use Prim.Native.String.{String, ◌∷◌, ◌++◌}
use text.Mathlib.TextLemmas.{nil-append, cons-append}
use mathlib.Core.List.{[] as none_left, ◌∷◌ as ◌+item+◌}
use tenant_billing_service.Base.{
  leb, ℕ, ◌≤◌, ◌≡◌, refl, true, false, Option, none, some, ltb, eq_refl, eq_iff, arith, Bool-cases,
  inl, inr,
}
use tenant_billing_service.World.{World}
use tenant_billing_service.Signing.{
  signed_content, header_value, sign_payload, distance, verdict, check_signature, check_parts,
  check_pairs, int_of, verify_signature,
}
use tenant_billing_service.Signing.Decimal.{ℤ, pos}
use tenant_billing_service.Signing.Numerals.{str_int, has_code, str_int-comma, parse_int-str_int}
use tenant_billing_service.Signing.Headers.{
  Pairs, split_first, pairs_of, parse_header, lookup, is_ascii, split-none, split-at,
}

one_char : (c : Char) (s : String) → (c ∷ "") ++ s ≡ c ∷ s
one_char c s = rw (cons-append c "" s, nil-append s) refl

two_chars : (c d : Char) (s : String) → (c ∷ (d ∷ "")) ++ s ≡ c ∷ (d ∷ s)
two_chars c d s = rw (cons-append c (d ∷ "") s, one_char d s) refl

three_chars : (c d e : Char) (s : String) → (c ∷ (d ∷ (e ∷ ""))) ++ s ≡ c ∷ (d ∷ (e ∷ s))
three_chars c d e s = rw (cons-append c (d ∷ (e ∷ "")) s, two_chars d e s) refl

time-item : (s : String) → "t=" ++ s ≡ "t" ∷ ("=" ∷ s)
time-item s = two_chars "t" "=" s

mac-item : (s : String) → "v1=" ++ s ≡ "v" ∷ ("1" ∷ ("=" ∷ s))
mac-item s = three_chars "v" "1" "=" s

-- A header that was made is read back.
pub parse_header-header_value :
    (t : ℤ) (mac : String)
    → has_code 44 mac ≡ false
    → parse_header (header_value t mac)
      ≡ some (("t", str_int t) +item+ (("v1", mac) +item+ none_left))
unfolding parse_header pairs_of split_first
parse_header-header_value t mac no_comma =
    rw
      (
        time-item (str_int t),
        one_char "," ("v1=" ++ mac),
        mac-item mac,
        split-at 44 ("t" ∷ ("=" ∷ str_int t)) "," ("v" ∷ ("1" ∷ ("=" ∷ mac))) (str_int-comma t)
            refl,
        split-none 44 ("v" ∷ ("1" ∷ ("=" ∷ mac))) no_comma,
      )
      refl

module _ (w : World) (now : ℕ) (signed_at : ℤ) (secret body : String) (max_age_seconds : ℕ)
    (no_comma : (content : String) → has_code 44 (w.hmac_hex secret content) ≡ false) where
  abbrev signature : String
  signature = (sign_payload w (pos now) secret body (some signed_at)).0

  verify-signed :
      verify_signature w now secret body signature max_age_seconds
      ≡ check_signature w now secret body max_age_seconds signed_at
          (w.hmac_hex secret (signed_content signed_at body))
  unfolding verify_signature sign_payload lookup
  verify-signed =
      rw
        (
          parse_header-header_value signed_at (w.hmac_hex secret (signed_content signed_at body))
              (no_comma (signed_content signed_at body)),
          parse_int-str_int signed_at,
        )
        refl

  -- If the macs are ASCII texts with no comma, as hexadecimal digits are, then the header that a
  -- payload is signed with at any time verifies for the secret and the body as long as its time
  -- differs from now by at most the maximal age, and does not when it differs by more.
  pub sign_payload-verifies :
      ((content : String) → is_ascii (w.hmac_hex secret content) ≡ true)
      → verify_signature w now secret body signature max_age_seconds
        ≡ verdict (leb (distance now signed_at) max_age_seconds)
  sign_payload-verifies ascii =
      let mac = w.hmac_hex secret (signed_content signed_at body) in
      rw verify-signed (ground (arith, ascii (signed_content signed_at body), eq_refl mac))

-- What an accepted signature says: its time is fresh, and its mac is that of the time and the body.
pub record Accepts (w : World) (now : ℕ) (secret body header : String) (max_age_seconds : ℕ)
    : Type 0 where
  pub parts : Pairs
  pub timestamp : ℤ
  pub parsed : parse_header header ≡ some parts
  pub of_time : int_of (lookup "t" parts) ≡ some timestamp
  pub of_mac : lookup "v1" parts ≡ some (w.hmac_hex secret (signed_content timestamp body))
  pub fresh : distance now timestamp ≤ max_age_seconds

module _ (w : World) (now : ℕ) (secret body header : String) (max_age_seconds : ℕ) where
  accepted_signature :
      (t : ℤ) (sig : String)
      → check_signature w now secret body max_age_seconds t sig ≡ verdict true
      → (distance now t ≤ max_age_seconds) × (w.hmac_hex secret (signed_content t body) ≡ sig)
  accepted_signature t sig h = elim (Bool-cases (ltb max_age_seconds (distance now t))) [
    | inl late ↦ cc (rw late at h)
    | inr fresh ↦
        (ground arith, (eq_iff (w.hmac_hex secret (signed_content t body)) sig).0 (ground arith))
  ]

  accepted_parts :
      (parts : Pairs) (t : Option ℤ) (sig : Option String)
      → parse_header header ≡ some parts
      → int_of (lookup "t" parts) ≡ t
      → lookup "v1" parts ≡ sig
      → check_parts w now secret body max_age_seconds t sig ≡ verdict true
      → Accepts w now secret body header max_age_seconds
  accepted_parts parts none sig p e f h = cc
  accepted_parts parts (some t) none p e f h = cc
  accepted_parts parts (some t) (some sig) p e f h =
      let (fresh, same) = accepted_signature t sig h in
      record {
        parts = parts;
        timestamp = t;
        parsed = p;
        of_time = e;
        of_mac = rw same f;
        fresh = fresh;
      }

  accepted_pairs :
      (pairs : Option Pairs)
      → parse_header header ≡ pairs
      → check_pairs w now secret body max_age_seconds pairs ≡ verdict true
      → Accepts w now secret body header max_age_seconds
  accepted_pairs none p h = cc
  accepted_pairs (some parts) p h =
      accepted_parts parts (int_of (lookup "t" parts)) (lookup "v1" parts) p refl refl h

  -- If a header verifies, then it reads as items of which "t" is a whole number that differs from
  -- now by at most the maximal age, and "v1" is the mac of that time and the body under the
  -- secret.
  pub verify_signature-Accepts :
      verify_signature w now secret body header max_age_seconds ≡ verdict true
      → Accepts w now secret body header max_age_seconds
  unfolding verify_signature
  verify_signature-Accepts h = accepted_pairs (parse_header header) refl h
