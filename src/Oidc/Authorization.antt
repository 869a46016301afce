-- ===== src/Oidc/Authorization.antt =====
-- backend/internal/oidc/authorization_service.go: `authorize`, which grants an authorization request
-- or names the interaction that it still needs. The claims of the ID token (claims_service.go) are
-- the parameter `apply_id_token_claims`; log lines are left out.
pub mod Access
pub mod Fulfilment
pub mod Granting
pub mod Resumption
pub mod Guarantees
use pocket_id.Prelude.{
  ℕ, Bool, true, false, not, ◌&&◌, ◌||◌, Option, none, some, List, [], ◌∷◌, if◌then◌else◌,
}
use pocket_id.Result.{Result, ok, err}
use pocket_id.Exec.{Exec, pure, raise, ◌>>=◌, ◌>>◌}
use pocket_id.CallbackUrl.Bytes.{Bytes, bytes}
use pocket_id.Oidc.Scopes.{login_required, invalid_request, access_denied, consent_required_error}
use pocket_id.Oidc.Resource.{is_empty}
use pocket_id.Oidc.Consent.{
  Client, User, validate_client_pkce_requirement, requires_reauthentication_for_max_age,
  is_user_group_allowed_to_authorize, has_authorized_client,
}
use pocket_id.Oidc.Interaction.{
  InteractionSession, Requirements, any_required, client_authorization, new_client_authorization,
  Services, is_user, par_required, user_not_found, lift, current_time, get_session, delete_session,
  with_tx,
}
use pocket_id.Oidc.Steps.{resolve_grant, record_consent, switch_interaction_session_user}
use pocket_id.Oidc.Request.{
  AuthorizeInput, Session, Grant, AuthorizationResult, requires_interaction, granted, has_prompt,
  derived_requirements, effective_requirements, effective_time, build_authorized_session,
  validate_interaction_session_binding, created_session,
}

abbrev pub is_none : {A : Type 0} → Option A → Bool
is_none none = true
is_none (some a) = false

module _ {C P W : Type 0} (services : Services C P W) where
  -- the reauthentication token, whose refusal leaves the requirement
  abbrev pub reauthenticated : Requirements → ℕ → Result ℕ × W → Result (Requirements × ℕ) × W
  reauthenticated r t (ok at, w) = (ok (record r { reauthentication_required = false }, at), w)
  reauthenticated r t (err e, w) = (ok (r, t), w)

  unfoldable pub try_reauthentication :
      AuthorizeInput → Requirements → ℕ → Exec W (Requirements × ℕ)
  try_reauthentication input r t w =
      if r.reauthentication_required && not (is_empty input.reauthentication_token)
      then reauthenticated r t
          (services.consume_reauthentication_token input.reauthentication_token input.user_id w)
      else (ok (r, t), w)

  unfoldable pub checked_requirements :
      AuthorizeInput → Requirements → ℕ → Exec W (Requirements × ℕ)
  checked_requirements input r t =
      if has_prompt input (bytes "none") && r.consent_required
      then raise consent_required_error
      else if has_prompt input (bytes "none") && r.reauthentication_required
      then raise login_required
      else try_reauthentication input r t

  unfoldable pub resolve_requirements :
      AuthorizeInput → ℕ → Option InteractionSession → Exec W (Requirements × ℕ)
  resolve_requirements input now session = do
    resource ← lift input.get_resource
    (audience, scopes, keys) ←
        resolve_grant services input.client.id resource input.requested_scopes
    has ← has_authorized_client services.consents input.client.id input.user_id keys
    too_old ←
        lift
          (requires_reauthentication_for_max_age input.form_max_age input.authentication_time now)
    checked_requirements input
        (effective_requirements (derived_requirements input has too_old) session)
        (effective_time input.authentication_time session)

  unfoldable pub switched_session :
      AuthorizeInput → Option InteractionSession → Exec W (Option InteractionSession)
  switched_session input none = pure none
  switched_session input (some s) = if is_user s.user_id input.user_id then pure (some s) else do
    switched ← switch_interaction_session_user services s input.user_id input.authentication_time
    services.update_session switched
    pure (some switched)

  unfoldable pub require_interaction :
      AuthorizeInput → Requirements → Option InteractionSession → Exec W AuthorizationResult
  require_interaction input r (some s) = pure (requires_interaction s.id)
  require_interaction input r none = do
    created ← services.create_session (created_session input input.user_id r)
    pure (requires_interaction created.id)

  -- a session is used once
  unfoldable pub use_session : Option InteractionSession → Exec W (Unit {0})
  use_session none = pure tt
  use_session (some s) = do
    deleted ← delete_session services s.id
    if deleted then pure tt else raise invalid_request

  abbrev pub log_authorization : AuthorizeInput → Bool → Exec W (Unit {0})
  log_authorization input known w = (
    ok tt,
    services.create_audit_log (if known then client_authorization else new_client_authorization)
        input.meta input.user_id input.client.name w,
  )

  -- once no requirement is left
  unfoldable pub grant_request :
      AuthorizeInput → ℕ → Option InteractionSession → ℕ → Exec W AuthorizationResult
  grant_request input now session authentication_time = do
    use_session session
    resource ← lift input.get_resource
    (audience, scopes, keys) ←
        resolve_grant services input.client.id resource input.requested_scopes
    known ← record_consent services input.user_id input.client.id keys
    log_authorization input known
    pure (
        granted (record {
          session = build_authorized_session input now session authentication_time;
          audience = audience;
          scopes = scopes;
        }))

  -- for a user that exists
  unfoldable pub authorize_user :
      AuthorizeInput → ℕ → Option InteractionSession → User → Exec W AuthorizationResult
  authorize_user input now loaded user =
      if not (is_user_group_allowed_to_authorize user input.client) then raise access_denied else do
        session ← switched_session input loaded
        (r, t) ← resolve_requirements input now session
        if any_required r
            then require_interaction input r session
            else grant_request input now session t

  abbrev pub authorize_found :
      AuthorizeInput → ℕ → Option InteractionSession → Option User → Exec W AuthorizationResult
  authorize_found input now session none = raise user_not_found
  authorize_found input now session (some user) = authorize_user input now session user

  unfoldable pub authorize_authenticated :
      AuthorizeInput → ℕ → Option InteractionSession → Exec W AuthorizationResult
  authorize_authenticated input now session = do
    found ← services.find_user input.user_id
    authorize_found input now session found

  abbrev pub bound_session :
      AuthorizeInput → Option InteractionSession → Exec W (Option InteractionSession)
  bound_session input none = raise invalid_request
  bound_session input (some s) = do
    lift (validate_interaction_session_binding s input)
    pure (some s)

  unfoldable pub bound_interaction_session : AuthorizeInput → Exec W (Option InteractionSession)
  bound_interaction_session input =
      if is_empty input.interaction_id
      then pure none
      else do found ← get_session services input.interaction_id; bound_session input found

  -- the errors of a request that names a resource are not told apart
  abbrev pub collapsed : {A : Type 0} → Bytes → Result A × W → Result A × W
  collapsed resource (ok a, w) = (ok a, w)
  collapsed resource (err e, w) = (err (if is_empty resource then e else invalid_request), w)

  unfoldable pub check_grant : AuthorizeInput → Bytes → Exec W (Bytes × List Bytes × List Bytes)
  check_grant input resource w =
      collapsed resource (resolve_grant services input.client.id resource input.requested_scopes w)

  unfoldable pub authorize_anonymous : AuthorizeInput → Exec W AuthorizationResult
  authorize_anonymous input = if has_prompt input (bytes "none") then raise login_required else do
    created ← services.create_session (
        created_session input [] (record {
          authentication_required = true;
          reauthentication_required =
              has_prompt input (bytes "login") || input.client.requires_reauthentication;
          account_selection_required = has_prompt input (bytes "select_account");
          consent_required = has_prompt input (bytes "consent");
        }))
    pure (requires_interaction created.id)

  -- `flagPkceSupportedClient`, whose errors are dropped
  abbrev pub flag_pkce : AuthorizeInput → Exec W (Unit {0})
  flag_pkce input w = (
    ok tt,
    if not (is_empty input.form_code_challenge)
          && (not input.client.pkce_enabled && not input.client.pkce_supported)
        then services.flag_pkce_supported input.client.id w
        else w,
  )

  module _ (apply_id_token_claims : Session → List Bytes → Client → Exec W Session) where
    unfoldable pub with_claims : AuthorizeInput → AuthorizationResult → Exec W AuthorizationResult
    with_claims input (requires_interaction id) = pure (requires_interaction id)
    with_claims input (granted g) = do
      session ← apply_id_token_claims g.session g.scopes input.client
      pure (granted (record g { session = session }))

    unfoldable pub authorize_signed_in :
        AuthorizeInput → Option InteractionSession → Exec W AuthorizationResult
    authorize_signed_in input session = do
      now ← current_time services
      result ←
          with_tx services
            (do result ← authorize_authenticated input now session; flag_pkce input; pure result)
      with_claims input result

    unfoldable pub authorize : AuthorizeInput → Exec W AuthorizationResult
    authorize input = do
      lift (validate_client_pkce_requirement input.client input.form_code_challenge)
      session ← bound_interaction_session input
      if input.client.requires_pushed_authorization_requests
            && (not input.has_pushed_authorization_request && is_none session)
          then raise par_required
          else do
            resource ← lift input.get_resource
            check_grant input resource
            if is_empty input.user_id
                then authorize_anonymous input
                else authorize_signed_in input session
