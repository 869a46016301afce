-- ===== src/ApiKeys.antt =====
-- backend/internal/apikey/service.go: the API keys of the users, and the static key of the
-- configuration. The database, the clock, the random strings and SHA-256 are the operations of
-- `Services`; users are `U`. A time is a number, as the database keeps it, and of a new user's fields
-- those that the code sets are kept. Not modelled: the lists of keys.
pub mod Guarantees
mod Tests
use pocket_id.Prelude.{
  ℕ, String, Bool, true, false, not, ◌&&◌, Option, none, some, [], ◌∷◌, ltb, ◌==◌, if◌then◌else◌,
}
use Prim.Native.String.{◌++◌}
use pocket_id.AppError.{Error, app, new_error, with_detail, with_fields}
use pocket_id.Result.{Result, ok, err}
use pocket_id.Exec.{Exec, pure, raise, wrapping, ◌>>=◌, ◌>>◌}

pub record ApiKey : Type 0 where
  pub id : String
  pub name : String
  -- the hash of the token
  pub key : String
  pub description : Option String
  pub expires_at : ℕ
  pub last_used_at : Option ℕ
  pub expiration_email_sent : Bool
  pub user_id : String

-- the DTO of the handler
pub record ApiKeyCreate : Type 0 where
  pub name : String
  pub description : Option String
  pub expires_at : ℕ

pub record NewUser : Type 0 where
  pub id : String
  pub first_name : String
  pub username : String
  pub display_name : String
  pub is_admin : Bool

-- how gorm's `Create` of a key ends: with the row, or with gorm.ErrDuplicatedKey, or with another error
pub data Insertion : Type 0 where
  inserted : ApiKey → Insertion
  duplicated : Insertion
  failed : Error → Insertion

pub record Services (U W : Type 0) : Type 0 where
  pub now : W → ℕ × W
  pub random_string : ℕ → Exec W String
  pub sha256 : String → String
  pub begin_transaction : W → W
  pub commit_transaction : Exec W (Unit {0})
  pub rollback : W → W
  -- a row without its ID
  pub insert_key : ApiKey → W → Insertion × W
  -- the row with the ID and the user, none for gorm.ErrRecordNotFound
  pub find_key : String → String → Exec W (Option ApiKey)
  pub save_key : ApiKey → Exec W (Unit {0})
  -- the number of deleted rows with the ID and the user
  pub delete_keys : String → String → Exec W ℕ
  -- the row with the hash that expires after the time, which becomes its last use, and its user
  pub use_key : String → ℕ → Exec W (Option (ApiKey × U))
  pub mark_sent : String → Exec W (Unit {0})
  pub find_user : String → Exec W (Option U)
  pub create_user : NewUser → Exec W U
  pub delete_user : String → Exec W (Unit {0})

-- constructors.go
abbrev pub invalid_api_key : Error
invalid_api_key = app (new_error "invalid_api_key" 401 "API key is invalid")

abbrev pub no_api_key_provided : Error
no_api_key_provided = app (new_error "no_api_key_provided" 401 "API key is missing")

abbrev pub api_key_not_found : Error
api_key_not_found = app (new_error "api_key_not_found" 404 "API key not found")

abbrev pub api_key_not_expired : Error
api_key_not_expired = app (new_error "api_key_not_expired" 409 "API key is not expired yet")

abbrev pub invalid_api_key_expiration : Error
invalid_api_key_expiration = app (
    with_fields
      (record { field = "expiresAt"; code = "invalid_value"; message = "must be in the future" }
        ∷ [])
      (new_error "invalid_api_key_expiration" 400 "API key expiration time must be in the future"))

-- `AlreadyInUse`, of a key's name
abbrev pub name_in_use : Error
name_in_use = app (
    with_detail "property" "API key name"
      (new_error "already_in_use" 409 "API key name is already in use"))

abbrev pub static_api_key_user_id : String
static_api_key_user_id = "00000000-0000-0000-0000-000000000000"

module _ {U W : Type 0} (services : Services U W) where
  abbrev pub current_time : Exec W ℕ
  current_time w = let (t, w') = services.now w in (ok t, w')

  abbrev pub check_insertion : Insertion × W → Result ApiKey × W
  check_insertion (inserted row, w) = (ok row, w)
  check_insertion (duplicated, w) = (err name_in_use, w)
  check_insertion (failed e, w) = wrapping "error creating API key" (raise e) w

  -- the row that a token is stored in, without an ID
  abbrev pub new_key : String → ApiKeyCreate → String → ApiKey
  new_key user_id input token = record {
    id = "";
    name = input.name;
    key = services.sha256 token;
    description = input.description;
    expires_at = input.expires_at;
    last_used_at = none;
    expiration_email_sent = false;
    user_id = user_id;
  }

  unfoldable pub create_api_key : String → ApiKeyCreate → Exec W (ApiKey × String)
  create_api_key user_id input = do
    t ← current_time
    if not (ltb t input.expires_at) then raise invalid_api_key_expiration else do
      token ← wrapping "error generating API key token" (services.random_string 32)
      key ← (λ w. check_insertion (services.insert_key (new_key user_id input token) w))
      pure (key, token)

  abbrev pub loaded : Option ApiKey → Exec W ApiKey
  loaded none = raise api_key_not_found
  loaded (some key) = pure key

  abbrev pub renewed : ApiKey → ℕ → String → ApiKey
  renewed key expiration token = record key {
    key = services.sha256 token;
    expires_at = expiration;
    expiration_email_sent = false;
  }

  abbrev pub save_renewed : ApiKey → String → Exec W (ApiKey × String)
  save_renewed key token = do
    wrapping "error saving API key" (services.save_key key)
    wrapping "error committing transaction" services.commit_transaction
    pure (key, token)

  abbrev pub renew_key : ApiKey → ℕ → Exec W (ApiKey × String)
  renew_key key expiration = do
    t ← current_time
    if ltb t key.expires_at then raise api_key_not_expired else do
      token ← wrapping "error generating API key token" (services.random_string 32)
      save_renewed (renewed key expiration token) token

  -- between `Begin` and the deferred `Rollback`
  unfoldable pub renew_inside : String → String → ℕ → Exec W (ApiKey × String)
  renew_inside user_id id expiration = do
    found ← wrapping "error loading API key" (services.find_key id user_id)
    key ← loaded found
    renew_key key expiration

  abbrev pub in_transaction : {A : Type 0} → Exec W A → Exec W A
  in_transaction m w = let (r, w') = m (services.begin_transaction w) in (r, services.rollback w')

  unfoldable pub renew_api_key : String → String → ℕ → Exec W (ApiKey × String)
  renew_api_key user_id id expiration = do
    t ← current_time
    if not (ltb t expiration)
        then raise invalid_api_key_expiration
        else in_transaction (renew_inside user_id id expiration)

  unfoldable pub revoke_api_key : String → String → Exec W (Unit {0})
  revoke_api_key user_id id = do
    deleted ← wrapping "error deleting API key" (services.delete_keys id user_id)
    if ltb 0 deleted then pure tt else raise api_key_not_found

  unfoldable pub mark_expiration_email_sent : String → Exec W (Unit {0})
  mark_expiration_email_sent id =
      wrapping "error marking API key expiration email sent" (services.mark_sent id)

  abbrev pub create_static_user : Exec W U
  create_static_user = do
    suffix ← wrapping "error generating static API key username suffix" (services.random_string 6)
    wrapping "error creating static API key user" (
        services.create_user (record {
          id = static_api_key_user_id;
          first_name = "Static API User";
          username = "static-api-user-" ++ suffix;
          display_name = "Static API User";
          is_admin = true;
        }))

  abbrev pub or_static_user : Option U → Exec W U
  or_static_user (some user) = pure user
  or_static_user none = create_static_user

  unfoldable pub init_static_api_key_user : Exec W U
  init_static_api_key_user = do
    found ← wrapping "error loading static API key user" (services.find_user static_api_key_user_id)
    or_static_user found

  abbrev pub key_user : Option (ApiKey × U) → Exec W U
  key_user none = raise invalid_api_key
  key_user (some (key, user)) = pure user

  unfoldable pub validate_stored : String → Exec W U
  validate_stored api_key = do
    t ← current_time
    found ← wrapping "error loading API key" (services.use_key (services.sha256 api_key) t)
    key_user found

  -- the first argument is the static key, empty where none is configured
  unfoldable pub validate_api_key : String → String → Exec W U
  validate_api_key static_api_key api_key =
      if api_key == ""
      then raise no_api_key_provided
      else if not (static_api_key == "") && api_key == static_api_key
      then init_static_api_key_user
      else validate_stored api_key

  -- `newService`: without a static key its user is deleted
  unfoldable pub new_service : String → Exec W (Unit {0})
  new_service static_api_key =
      if static_api_key == ""
      then wrapping "error deleting static API key user"
          (services.delete_user static_api_key_user_id)
      else pure tt
