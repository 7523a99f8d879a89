-- ===== src/Shelly/Errors.antt =====
-- The errors of shelly/client.go. A Go error is a chain; `wrapped` is fmt.Errorf with %w.
use Prim.Native.String.{◌++◌ as str_append}
use shelly_operator.Base.{ℤ, Bool, true, false, String, itoa_int}

pub data CallError : Type 0 where
  rpc_error : ℤ → String → CallError
  auth_error : String → CallError
  status_error : (status body : String) → CallError
  -- no answer, or one that does not decode
  transport : String → CallError
  -- a check of the client's own, before anything is sent
  invalid : String → CallError
  wrapped : String → CallError → CallError

-- IsRefusal: the device heard the request and did not act on it.
unfoldable pub is_refusal : CallError → Bool
is_refusal (rpc_error code message) = true
is_refusal (auth_error host) = true
is_refusal (status_error status body) = true
is_refusal (transport text) = false
is_refusal (invalid text) = false
is_refusal (wrapped text e) = is_refusal e

-- Error()
unfoldable pub error_text : CallError → String
error_text (rpc_error code message) =
    str_append "shelly rpc error " (str_append (itoa_int code) (str_append ": " message))
error_text (auth_error host) = str_append "shelly: authentication failed for " host
error_text (status_error status body) =
    str_append "status " (str_append status (str_append ": " body))
error_text (transport text) = text
error_text (invalid text) = text
error_text (wrapped text e) = str_append text (str_append ": " (error_text e))

-- errors.As(err, &authErr)
unfoldable pub is_auth_error : CallError → Bool
is_auth_error (auth_error host) = true
is_auth_error (wrapped text e) = is_auth_error e
is_auth_error _ = false
