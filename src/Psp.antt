-- ===== src/Psp.antt =====
-- app/services/psp_client.py: one charge request to the PSP, and what its outcome is read as.
use text.Mathlib.Text.{find?}
use tenant_billing_service.Base.{
  ℕ, String, Bool, true, false, Option, none, some, ◌∷◌, leb, str_eq, if◌then◌else◌,
}
use tenant_billing_service.Errors.{ok}
use tenant_billing_service.Session.{PspRequest, Action}
use tenant_billing_service.World.{
  World, PspBody, HttpOutcome, timeout_exception, request_error, response,
}

pub data PspError : Type 0 where
  psp_timeout psp_network_error : PspError

pub record PspChargeResult : Type 0 where
  pub status : Option String
  pub psp_ref : Option String
  pub code : Option String

-- How a call of `charge` ends: with a result, with a PSPError, or with another exception, which a
-- body that is no JSON or has no "status" raises.
pub data ChargeOutcome : Type 0 where
  charged : PspChargeResult → ChargeOutcome
  failed_with : PspError → ChargeOutcome
  raised : ChargeOutcome

-- `a or b` on values that may be None
abbrev pub or_else : Option String → Option String → Option String
or_else none b = b
or_else (some a) b = if str_eq a "" then b else some a

-- `status == "succeeded"`; a status of None is not.
abbrev pub is_succeeded : Option String → Bool
is_succeeded none = false
is_succeeded (some status) = str_eq status "succeeded"

-- The result from a body that has a "status", of which null is read as None.
abbrev pub with_status : PspBody → Option (Option String) → ChargeOutcome
with_status body none = raised
with_status body (some status) =
    charged (record {
      status = status;
      psp_ref = body.psp_ref;
      code = or_else body.code body.failure_code;
    })

abbrev pub read_body : Option PspBody → ChargeOutcome
read_body none = raised
read_body (some body) = with_status body body.status

unfoldable pub read_outcome : HttpOutcome → ChargeOutcome
read_outcome timeout_exception = failed_with psp_timeout
read_outcome request_error = failed_with psp_network_error
read_outcome (response status_code body) =
    if leb 400 status_code then failed_with psp_network_error else read_body body

-- `charge`: sends the request, and reads the answer.
unfoldable pub charge : World → PspRequest → Action ChargeOutcome
unfolding read_outcome
charge w request s =
    (ok (read_outcome (w.post s.sent request)), record s { sent = request ∷ s.sent })

-- `type(e).__name__.lower()`
abbrev pub lower_class_name : PspError → String
lower_class_name psp_timeout = "psptimeout"
lower_class_name psp_network_error = "pspnetworkerror"

-- `part in whole`
abbrev pub is_found : Option ℕ → Bool
is_found none = false
is_found (some _) = true

abbrev pub contains_text : String → String → Bool
contains_text whole part = is_found (find? whole part)

-- `_failure_code_from_psp_error` of app/services/payment_service.py
unfoldable pub failure_code_from_psp_error : PspError → String
failure_code_from_psp_error e =
    if contains_text (lower_class_name e) "timeout" then "psp_timeout" else "psp_unavailable"
