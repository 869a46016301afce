-- ===== src/AppError.antt =====
-- backend/internal/apperror/error.go, and the constructors of constructors.go that the modelled
-- components return.
pub mod Chain
mod Tests
use pocket_id.Prelude.{
  ℕ, String, Bool, false, ◌||◌, Option, none, some, List, [], ◌∷◌, ◌==◌, if◌then◌else◌,
}

pub record FieldError : Type 0 where
  pub field : String
  pub code : String
  pub message : String

-- The struct `Error` without its cause; durations are nanoseconds.
pub record AppError : Type 0 where
  pub code : String
  pub status : ℕ
  pub message : String
  pub details : List (String × String)
  pub fields : List FieldError
  pub retry_after : ℕ

-- A Go `error`: an application error, with or without a cause, an error that `fmt.Errorf` wraps
-- with `%w`, or any other error, known by its text.
pub data Error : Type 0 where
  app : AppError → Error
  app_caused : AppError → Error → Error
  wrapped : String → Error → Error
  plain : String → Error

-- `New`
abbrev pub new_error : String → ℕ → String → AppError
new_error code status message = record {
  code = code;
  status = status;
  message = message;
  details = [];
  fields = [];
  retry_after = 0;
}

-- `Wrap`; a nil cause is `none`.
unfoldable pub wrap : Option Error → String → ℕ → String → Error
wrap none code status message = app (new_error code status message)
wrap (some cause) code status message = app_caused (new_error code status message) cause

-- `Internal`
unfoldable pub internal : Option Error → Error
unfolding wrap
internal cause = wrap cause "internal_error" 500 "Something went wrong"

-- `e.details[key] = value`
abbrev pub set_detail : String → String → List (String × String) → List (String × String)
set_detail k v [] = (k, v) ∷ []
set_detail k v ((j, w) ∷ m) = if j == k then (k, v) ∷ m else (j, w) ∷ set_detail k v m

abbrev pub with_detail : String → String → AppError → AppError
with_detail key value e = record e { details = set_detail key value e.details }

abbrev pub with_fields : List FieldError → AppError → AppError
with_fields fields e = record e { fields = fields }

-- `IsCode`: `errors.Is` walks the chain of causes, and `(*Error).Is` compares the codes alone.
unfoldable pub is_code : Error → String → Bool
is_code (app e) code = e.code == code
is_code (app_caused e cause) code = e.code == code || is_code cause code
is_code (wrapped message cause) code = is_code cause code
is_code (plain message) code = false

-- constructors.go
abbrev pub not_signed_in : Error
not_signed_in = app (new_error "not_signed_in" 401 "You are not signed in")

abbrev pub missing_permission : AppError
missing_permission = new_error "forbidden" 403 "You don't have permission to perform this action"

abbrev pub missing_scope : String → Error
missing_scope scope = app (with_detail "required_scope" scope missing_permission)

abbrev pub api_key_auth_not_allowed : Error
api_key_auth_not_allowed = app (
    new_error "api_key_auth_not_allowed" 403
      "API key authentication is not allowed for this endpoint")

abbrev pub email_verification_required : Error
email_verification_required = app (
    new_error "email_verification_required" 403
      "You must verify your email address before you can access this service.")

abbrev pub user_disabled : Error
user_disabled = app (new_error "user_disabled" 403 "User account is disabled")

abbrev pub token_invalid : Error
token_invalid = app (new_error "invalid_token" 401 "Token is invalid")

abbrev pub token_invalid_or_expired : Error
token_invalid_or_expired =
    app (new_error "token_invalid_or_expired" 401 "Token is invalid or expired")

abbrev pub device_code_invalid : Error
device_code_invalid = app (
    new_error "device_code_invalid" 401
      "One-time access code must be used on the device it was generated for")

abbrev pub device_login_expired : Error
device_login_expired =
    app (new_error "device_login_expired" 401 "Device login request is invalid or expired")

abbrev pub device_login_denied : Error
device_login_denied = app (new_error "device_login_denied" 403 "Device login request was denied")

abbrev pub reauthentication_required : Error
reauthentication_required =
    app (new_error "reauthentication_required" 401 "Reauthentication is required")
