-- ===== src/MockPsp.antt =====
-- mock_psp/main.py: the PSP that the service is tested with. Times are in tenths
-- of a second.
use Prim.Native.String.{◌++◌}
use tenant_billing_service.Base.{ℕ, String, Option, none, some, str_eq, if◌then◌else◌}
use tenant_billing_service.Session.{PspRequest}

pub record ChargeResponse : Type 0 where
  pub status : String
  pub psp_ref : Option String
  pub code : Option String

-- A response after a delay, or an HTTPException.
pub data Reply : Type 0 where
  replied : ℕ → ChargeResponse → Reply
  http_error : ℕ → String → Reply

abbrev pub success : String → ChargeResponse
success psp_ref = record { status = "succeeded"; psp_ref = some psp_ref; code = none }

abbrev pub failure : String → ChargeResponse
failure code = record { status = "failed"; psp_ref = none; code = some code }

-- `charge`; `psp_ref` is the text of the UUID that it draws.
unfoldable pub charge : String → PspRequest → Reply
charge psp_ref request =
    if str_eq request.card_token "tok_success"
    then replied 1 (success psp_ref)
    else if str_eq request.card_token "tok_insufficient_funds"
    then replied 1 (failure "insufficient_funds")
    else if str_eq request.card_token "tok_card_declined"
    then replied 1 (failure "card_declined")
    else if str_eq request.card_token "tok_timeout"
    then replied 300 (success psp_ref)
    else if str_eq request.card_token "tok_network_error"
    then http_error 500 "psp_unavailable"
    else http_error 400 ("unknown token: " ++ request.card_token)
