-- ===== src/Errors.antt =====
-- The errors that the provider passes on, and its two tests of them: `isNotFound`, which each
-- controller has, and `IsS3ValidationConflict` of internal/clients/retry.go.
use opsmanager_crossplane_pr.Common.{
  ℕ, ◌≡◌, Bool, true, false, ◌&&◌, Option, none, some, List, [], String, ◌==◌, string_eq, nat_eq,
  arith,
}

-- `opsmngr.ErrorResponse`, as far as the provider reads it. The status is that of its `Response`,
-- `none` where that pointer is nil.
pub record ErrorResponse : Type 0 where
  pub status : Option ℕ
  pub error_code : String

-- A Go error that is not nil: an answer of the API, a text with its arguments (`errors.New`,
-- `errors.Errorf` and the errors of other packages), or an error under `errors.Wrap`.
pub data Err : Type 0 where
  api : ErrorResponse → Err
  formatted : String → List String → Err
  wrapped : String → List String → Err → Err

abbrev pub new_error : String → Err
new_error m = formatted m []

abbrev pub wrap : String → Err → Err
wrap m e = wrapped m [] e

-- `stderrors.As(err, &e)`: the first `ErrorResponse` of the chain.
abbrev pub as_response : Err → Option ErrorResponse
as_response (api r) = some r
as_response (formatted m args) = none
as_response (wrapped m args e) = as_response e

abbrev pub status_not_found : ℕ
status_not_found = 404

abbrev pub status_conflict : ℕ
status_conflict = 409

abbrev pub s3_validation_error_code : String
s3_validation_error_code = "BACKUP-S3-VALIDATION_FAILED"

has_status : ℕ → Option ℕ → Bool
has_status code none = false
has_status code (some n) = n == code

response_not_found : Option ErrorResponse → Bool
unfolding has_status
response_not_found none = false
response_not_found (some r) = has_status status_not_found r.status

-- The argument is `none` for nil.
unfoldable pub is_not_found : Option Err → Bool
unfolding response_not_found
is_not_found none = false
is_not_found (some e) = response_not_found (as_response e)

response_conflict : Option ErrorResponse → Bool
unfolding has_status
response_conflict none = false
response_conflict (some r) =
    has_status status_conflict r.status && r.error_code == s3_validation_error_code

unfoldable pub is_s3_validation_conflict : Option Err → Bool
unfolding response_conflict
is_s3_validation_conflict none = false
is_s3_validation_conflict (some e) = response_conflict (as_response e)

-- No error is both: the two tests ask for different status codes.
pub not_found_no_conflict :
    (e : Option Err) → is_not_found e ≡ true → is_s3_validation_conflict e ≡ false
unfolding is_not_found is_s3_validation_conflict
not_found_no_conflict e h = ground arith
