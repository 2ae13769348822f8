-- ===== src/Tests/Signatures.antt =====
-- Signatures on the small world.
use tenant_billing_service.Base.{◌≡◌, refl, String, true, false, some}
use tenant_billing_service.Signing.{sign_payload, verify_signature, Verdict, verdict, type_error}
use tenant_billing_service.Signing.Decimal.{ℤ, pos}
use tenant_billing_service.Signing.Numerals.{parse_int, parse_digits}
use tenant_billing_service.Signing.Headers.{parse_header, pairs_of, split, split_first, lookup}
use tenant_billing_service.Signing.Laws.{Accepts, sign_payload-verifies, verify_signature-Accepts}
use tenant_billing_service.Auth.Texts.{strip, lstrip, rstrip}
use tenant_billing_service.Tests.World.{small_world}

abbrev header_at : ℤ → String
header_at t = (sign_payload small_world (pos 1000) "key" "{}" (some t)).0

sign_payload-verifies_example :
    verify_signature small_world 1000 "key" "{}" (header_at (pos 900)) 300 ≡ verdict true
sign_payload-verifies_example =
    sign_payload-verifies small_world 1000 (pos 900) "key" "{}" 300 (λ c. refl) (λ c. refl)

-- The mac of another secret, a header with no mac, a negative time, and a mac that is not ASCII.
abbrev check : String → Verdict
check header = verify_signature small_world 1000 "key" "{}" header 300

checks :
    (check "t= +1_000 ,v1=5fkey" ≡ verdict true)
    × (check "t=1000,v1=5fother" ≡ verdict false)
    × (check "t=1000" ≡ verdict false)
    × (check "t=-1,v1=5fkey" ≡ verdict false)
    × (check "t=1000,v1=5fké" ≡ type_error)
unfolding verify_signature parse_header pairs_of split split_first lookup parse_int parse_digits
    strip lstrip rstrip
checks = (refl, refl, refl, refl, refl)

verify_signature-Accepts_example : Accepts small_world 1000 "key" "{}" "t=900,v1=5fkey" 300
unfolding verify_signature parse_header pairs_of split split_first lookup parse_int parse_digits
    strip lstrip rstrip
verify_signature-Accepts_example =
    verify_signature-Accepts small_world 1000 "key" "{}" "t=900,v1=5fkey" 300 refl
