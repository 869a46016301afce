-- ===== src/Oidc/Device.antt =====
-- backend/internal/oidc/device_service.go: a signed-in user approves the code that a device shows. The
-- device's request is fosite's, with the grants that GrantScope makes; the user code strategy, the store
-- of device codes and the claims of the ID token are operations of `DeviceServices`.
pub mod Storing
pub mod Approved
pub mod Selected
use pocket_id.Prelude.{
  ℕ, ◌+◌, ◌-◌, Bool, true, false, not, ◌&&◌, ◌||◌, Option, none, some, List, [], ◌∷◌, ◌++◌, map,
  eqb, leb, ◌==◌, if◌then◌else◌,
}
use pocket_id.AppError.{
  Error, app, app_caused, wrapped, plain, new_error, reauthentication_required,
}
use pocket_id.Result.{Result, ok, err}
use pocket_id.Exec.{Exec, pure, raise, ◌>>=◌, ◌>>◌}
use pocket_id.CallbackUrl.Bytes.{Bytes, bytes}
use pocket_id.Oidc.Scopes.{has_text, access_denied, invalid_target}
use pocket_id.Oidc.Resource.{is_empty}
use pocket_id.Oidc.Consent.{
  Client, User, narrow_approved_scopes, is_user_group_allowed_to_authorize, consent_required,
  has_authorized_client,
}
use pocket_id.Oidc.Interaction.{RequestMeta, Services, user_not_found, lift, current_time, with_tx}
use pocket_id.Oidc.Request.{Session, first_set}
use pocket_id.Oidc.Steps.{resolve_grant, record_consent, resolve_scope_info_for_request}
use pocket_id.Outbound.Text.{trim_space}

pub data UserCodeState : Type 0 where
  unused accepted rejected : UserCodeState

-- a session with the ends of the device code and of the user code, 0 where it has none
pub record DeviceSession : Type 0 where
  pub session : Session
  pub device_code_expires_at : ℕ
  pub user_code_expires_at : ℕ

pub record DeviceRequest : Type 0 where
  pub client : Client
  pub get_resource : Result Bytes
  pub requested_at : ℕ
  pub requested_scopes : List Bytes
  pub granted_scopes : List Bytes
  pub granted_audience : List Bytes
  pub user_code_state : UserCodeState
  pub session : DeviceSession

pub data CodeCheck : Type 0 where
  valid expired : CodeCheck

pub record DeviceServices (C P W : Type 0) : Type 0 where
  pub services : Services C P W
  -- `GrantScope` and `GrantAudience` on what is granted already
  pub grant_scope : List Bytes → Bytes → List Bytes
  pub grant_audience : List Bytes → Bytes → List Bytes
  -- `NewDeviceRequest` of the HTTP request, and what `NewDeviceResponse` stores
  pub new_device_request : Exec W DeviceRequest
  pub new_device_response : DeviceRequest → Exec W (Unit {0})
  pub user_code_signature : Bytes → Exec W Bytes
  -- none for fosite.ErrNotFound
  pub find_device_request : Bytes → Exec W (Option DeviceRequest)
  -- expired for fosite.ErrDeviceExpiredToken
  pub validate_user_code : DeviceRequest → Bytes → Exec W CodeCheck
  pub apply_id_token_claims : DeviceSession → List Bytes → Client → Exec W DeviceSession
  pub create_device_audit_log : Bool → RequestMeta → Bytes → Bytes → W → W
  -- the device code's signature
  pub accept_device_code_session : Bytes → DeviceRequest → Exec W Bytes
  pub create_openid_connect_session : Bytes → DeviceRequest → Exec W (Unit {0})

-- what the approval of a code brings; of the session only its user, method and time
pub record Approval : Type 0 where
  pub user_code : Bytes
  pub user_id : Bytes
  pub authentication_method : Bytes
  pub authentication_time : ℕ
  pub approved_scopes : Option (List Bytes)
  pub reauthentication_token : Bytes
  pub meta : RequestMeta

-- dto.DeviceCodeInfoDto, with the client as it is
pub record DeviceCodeInfo (P : Type 0) : Type 0 where
  pub client : Client
  pub scope : List Bytes
  pub scope_info : List P
  pub authorization_required : Bool
  pub reauthentication_required : Bool

abbrev pub invalid_device_code : Error
invalid_device_code = app (new_error "oidc_invalid_device_code" 400 "Device code is invalid")

abbrev pub device_code_expired : Error
device_code_expired = app (new_error "oidc_device_code_expired" 400 "Device code has expired")

-- `utils.NormalizeUnambiguousString` of the text in upper case
abbrev pub upper : ℕ → ℕ
upper c = if leb 97 c && leb c 122 then c - 32 else c

abbrev pub unambiguous : ℕ → ℕ
unambiguous c = if eqb c 73 || eqb c 105 then 49 else if eqb c 79 || eqb c 111 then 48 else c

unfoldable pub normalize_user_code : Bytes → Bytes
unfolding trim_space
normalize_user_code code = map (λ c. unambiguous (upper c)) (trim_space code)

-- `slices.DeleteFunc` of the scopes that are not among the narrowed ones
unfoldable pub delete_others : List Bytes → List Bytes → List Bytes
delete_others narrowed [] = []
delete_others narrowed (s ∷ ss) =
    let rest = delete_others narrowed ss in if has_text narrowed s then s ∷ rest else rest

abbrev pub narrowed_request : DeviceRequest → Result (List Bytes) → Result DeviceRequest
narrowed_request r (err e) = err e
narrowed_request r (ok narrowed) = ok (record r {
  requested_scopes = narrowed;
  granted_scopes = delete_others narrowed r.granted_scopes;
})

unfoldable pub narrow_device_request_scopes :
    DeviceRequest → Option (List Bytes) → Result DeviceRequest
unfolding delete_others narrow_approved_scopes
narrow_device_request_scopes r none = ok r
narrow_device_request_scopes r (some approved) =
    narrowed_request r (narrow_approved_scopes r.requested_scopes (some approved))

-- `copyDeviceCodeExpiry`: an end that is zero is not copied
unfoldable pub copy_device_code_expiry : DeviceSession → Session → DeviceSession
copy_device_code_expiry from to = record {
  session = to;
  device_code_expires_at = from.device_code_expires_at;
  user_code_expires_at = from.user_code_expires_at;
}

abbrev pub is_unused : UserCodeState → Bool
is_unused unused = true
is_unused accepted = false
is_unused rejected = false

-- `errors.Is(err, fosite.ErrAccessDenied)`
abbrev pub is_access_denied : Error → Bool
is_access_denied (plain name) = name == "access_denied"
is_access_denied (wrapped message e) = is_access_denied e
is_access_denied (app e) = false
is_access_denied (app_caused e cause) = is_access_denied cause

module _ {C P W : Type 0} (device : DeviceServices C P W) where
  abbrev pub grant_scopes : List Bytes → List Bytes → List Bytes
  grant_scopes already [] = already
  grant_scopes already (s ∷ ss) = grant_scopes (device.grant_scope already s) ss

  -- `grantResourceIndicator`
  unfoldable pub grant_resource_indicator : DeviceRequest → Bytes → List Bytes → DeviceRequest
  grant_resource_indicator r audience scopes = record r {
    granted_scopes = grant_scopes r.granted_scopes scopes;
    granted_audience =
        if is_empty audience
        then r.granted_audience
        else device.grant_audience r.granted_audience audience;
  }

  -- a client that may not access the API is not told that it exists
  abbrev pub concealed : {B : Type 0} → Bytes → Result B × W → Result B × W
  concealed resource (ok b, w) = (ok b, w)
  concealed resource (err e, w) =
      (err (if not (is_empty resource) && is_access_denied e then invalid_target else e), w)

  unfoldable pub create_device_authorization : Exec W DeviceRequest
  create_device_authorization = do
    r ← device.new_device_request
    resource ← lift r.get_resource
    (audience, scopes, keys) ← λ w.
        concealed resource (resolve_grant device.services r.client.id resource r.requested_scopes w)
    let granted = grant_resource_indicator r audience scopes
    device.new_device_response granted
    pure granted

  abbrev pub checked_code : DeviceRequest → Bytes → CodeCheck → Exec W (DeviceRequest × Bytes)
  checked_code r signature valid = pure (r, signature)
  checked_code r signature expired = raise device_code_expired

  abbrev pub found_code : Bytes → Bytes → Option DeviceRequest → Exec W (DeviceRequest × Bytes)
  found_code code signature none = raise invalid_device_code
  found_code code signature (some r) = do
    check ← device.validate_user_code r code
    checked_code r signature check

  unfoldable pub device_request_from_user_code : Bytes → Exec W (DeviceRequest × Bytes)
  unfolding normalize_user_code
  device_request_from_user_code user_code = do
    signature ← device.user_code_signature (normalize_user_code user_code)
    found ← device.find_device_request signature
    found_code (normalize_user_code user_code) signature found

  abbrev pub found_user : Option User → Exec W User
  found_user none = raise user_not_found
  found_user (some user) = pure user

  -- in a transaction of its own, which is rolled back
  unfoldable pub load_device_authorization_user : Bytes → Exec W User
  load_device_authorization_user user_id w =
      let (begun, w₁) = device.services.begin_transaction w in
      let (r, w₂) = (device.services.find_user user_id >>= found_user) w₁ in
      (r, device.services.rollback w₂)

  -- the time of the sign-in, proven afresh where the client demands it
  unfoldable pub reauthenticated_time : Approval → Client → Exec W ℕ
  reauthenticated_time input client =
      if not client.requires_reauthentication
      then pure input.authentication_time
      else if is_empty input.reauthentication_token
      then raise reauthentication_required
      else device.services.consume_reauthentication_token input.reauthentication_token input.user_id

  -- `NewAuthenticatedSession`
  abbrev pub new_session : Approval → ℕ → ℕ → ℕ → Session
  new_session input at requested_at now = record {
    subject = input.user_id;
    authentication_method = input.authentication_method;
    authentication_time = first_set at now;
    requested_at = first_set requested_at now;
  }

  abbrev pub log_device : Bool → Approval → Client → Exec W (Unit {0})
  log_device known input client w =
      (ok tt, device.create_device_audit_log known input.meta input.user_id client.name w)

  -- the transaction of `acceptDeviceCode`; the request that is stored is its result
  unfoldable pub approve : Approval → Bytes → DeviceRequest → List Bytes → Exec W DeviceRequest
  approve input signature r keys = do
    at ← reauthenticated_time input r.client
    now ← current_time device.services
    session ←
        device.apply_id_token_claims
          (copy_device_code_expiry r.session (new_session input at r.requested_at now))
          r.granted_scopes r.client
    let stored = record r { session = session }
    known ← record_consent device.services input.user_id r.client.id keys
    log_device known input r.client
    code ← device.accept_device_code_session signature stored
    if device.services.provider.arguments_has r.granted_scopes (bytes "openid")
        then device.create_openid_connect_session code stored
        else pure tt
    pure stored

  unfoldable pub accept_for : Approval → DeviceRequest → Bytes → User → Exec W DeviceRequest
  accept_for input r signature user =
      if not (is_user_group_allowed_to_authorize user r.client) then raise access_denied else do
        narrowed ← lift (narrow_device_request_scopes r input.approved_scopes)
        resource ← lift narrowed.get_resource
        (audience, scopes, keys) ←
            resolve_grant device.services narrowed.client.id resource narrowed.requested_scopes
        with_tx device.services
            (approve input signature (grant_resource_indicator narrowed audience scopes) keys)

  unfoldable pub accept_device_code : Approval → Exec W DeviceRequest
  accept_device_code input = do
    (r, signature) ← device_request_from_user_code input.user_code
    if not (is_unused r.user_code_state) then raise invalid_device_code else do
      user ← load_device_authorization_user input.user_id
      accept_for input r signature user

  -- whether the user has to consent
  unfoldable pub authorization_required : DeviceRequest → Bytes → Bytes → Exec W Bool
  authorization_required r resource user_id = if is_empty user_id then pure true else do
    (audience, scopes, keys) ← resolve_grant device.services r.client.id resource r.requested_scopes
    has ← has_authorized_client device.services.consents r.client.id user_id keys
    pure (consent_required has r.client.skip_consent [])

  unfoldable pub get_device_code_info : Bytes → Bytes → Exec W (DeviceCodeInfo P)
  get_device_code_info user_code user_id = do
    (r, signature) ← device_request_from_user_code user_code
    resource ← lift r.get_resource
    required ← authorization_required r resource user_id
    info ← resolve_scope_info_for_request device.services resource r.requested_scopes
    pure (record {
      client = r.client;
      scope = r.requested_scopes;
      scope_info = info;
      authorization_required = required;
      reauthentication_required = r.client.requires_reauthentication;
    })
