-- ===== src/Signing.antt =====
-- app/utils/signing.py: the signature of a webhook, and its verification by the receiver.
pub mod Decimal
pub mod Numerals
pub mod Headers
pub mod Laws
use Prim.Native.String.{◌++◌}
use tenant_billing_service.Base.{
  ℕ, suc, ◌+◌, ◌-◌, String, Bool, true, false, Option, none, some, ltb, str_eq, if◌then◌else◌, ◌&&◌,
}
use tenant_billing_service.World.{World}
use tenant_billing_service.Signing.Decimal.{ℤ, pos, negsuc}
use tenant_billing_service.Signing.Numerals.{str_int, parse_int}
use tenant_billing_service.Signing.Headers.{Pairs, parse_header, lookup, is_ascii}

-- `f"{timestamp}.{body}"`
abbrev pub signed_content : ℤ → String → String
signed_content timestamp body = str_int timestamp ++ ("." ++ body)

abbrev pub header_value : ℤ → String → String
header_value timestamp mac = ("t=" ++ str_int timestamp) ++ ("," ++ ("v1=" ++ mac))

abbrev pub timestamp_or_now : ℤ → Option ℤ → ℤ
timestamp_or_now now none = now
timestamp_or_now now (some timestamp) = timestamp

-- `now` is `int(time.time())`.
unfoldable pub sign_payload : World → ℤ → String → String → Option ℤ → String × ℤ
sign_payload w now secret body timestamp =
    let t = timestamp_or_now now timestamp in
    (header_value t (w.hmac_hex secret (signed_content t body)), t)

-- `abs(now - timestamp)` for a time after 1970
abbrev pub distance : ℕ → ℤ → ℕ
distance now (pos n) = (now - n) + (n - now)
distance now (negsuc n) = now + suc n

-- What the function returns, or the TypeError of `compare_digest` for a text that is not ASCII.
pub data Verdict : Type 0 where
  verdict : Bool → Verdict
  type_error : Verdict

abbrev pub compare_digest : String → String → Verdict
compare_digest a b = if is_ascii a && is_ascii b then verdict (str_eq a b) else type_error

abbrev pub check_signature : World → ℕ → String → String → ℕ → ℤ → String → Verdict
check_signature w now secret body max_age_seconds timestamp received_sig =
    if ltb max_age_seconds (distance now timestamp)
    then verdict false
    else compare_digest (w.hmac_hex secret (signed_content timestamp body)) received_sig

-- A missing key and a timestamp that is no number are answered alike.
abbrev pub check_parts : World → ℕ → String → String → ℕ → Option ℤ → Option String → Verdict
check_parts w now secret body max_age_seconds none sig = verdict false
check_parts w now secret body max_age_seconds (some timestamp) none = verdict false
check_parts w now secret body max_age_seconds (some timestamp) (some sig) =
    check_signature w now secret body max_age_seconds timestamp sig

abbrev pub int_of : Option String → Option ℤ
int_of none = none
int_of (some s) = parse_int s

abbrev pub check_pairs : World → ℕ → String → String → ℕ → Option Pairs → Verdict
check_pairs w now secret body max_age_seconds none = verdict false
check_pairs w now secret body max_age_seconds (some parts) =
    check_parts w now secret body max_age_seconds (int_of (lookup "t" parts)) (lookup "v1" parts)

unfoldable pub verify_signature : World → ℕ → String → String → String → ℕ → Verdict
verify_signature w now secret body signature_header max_age_seconds =
    check_pairs w now secret body max_age_seconds (parse_header signature_header)
