-- ===== src/Dial/Retry.antt =====
-- dial_failover.go: which outcomes of an attempt go on to the next candidate.
use xphone_go.Prelude.{
  ℕ, Bool, true, false, ◌&&◌, ◌||◌, List, [], ◌∷◌, ltb, leb, ◌==◌, if◌then◌else◌,
}

-- What an attempt returns, as the tests of retryableDialError tell it apart: a failure of this server, a final response by value or by pointer, or another error.
pub data DialError : Type 0 where
  no_error setup_error other_error : DialError
  response : ℕ → DialError

-- retryableStatusCode.
unfoldable pub retryable_status_code : ℕ → Bool
retryable_status_code code = (code == 408) || (leb 500 code && ltb code 600)

-- retryableDialError.
unfoldable pub retryable_dial_error : DialError → Bool
unfolding retryable_status_code
retryable_dial_error no_error = false
retryable_dial_error setup_error = false
retryable_dial_error (response code) = retryable_status_code code
retryable_dial_error other_error = true

-- sawSuccessResponse, on the codes of the responses.
unfoldable pub saw_success_response : List ℕ → Bool
saw_success_response [] = false
saw_success_response (code ∷ codes) =
    let rest = saw_success_response codes in if leb 200 code && ltb code 300 then true else rest
