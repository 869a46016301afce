-- ===== src/Oidc/Request.antt =====
-- What an authorization request brings, what it requires of the user, and the session that it is
-- granted (backend/internal/oidc/authorization_service.go).
use pocket_id.Prelude.{
  ℕ, Bool, true, false, not, ◌&&◌, ◌||◌, Option, none, some, List, eqb, if◌then◌else◌,
}
use pocket_id.Result.{Result, ok, err}
use pocket_id.CallbackUrl.Bytes.{Bytes, bytes, eq_bytes}
use pocket_id.Oidc.Scopes.{has_text, login_required, invalid_request}
use pocket_id.Oidc.Resource.{is_empty}
use pocket_id.Oidc.Consent.{Client, new_prompt_values, consent_required, consent_scopes_include}
use pocket_id.Oidc.Interaction.{InteractionSession, Requirements, RequestMeta}

-- `authorizeInput`, with what the service reads of fosite's requester; `get_resource` is GetResource
pub record AuthorizeInput : Type 0 where
  pub user_id : Bytes
  pub authentication_method : Bytes
  pub authentication_time : ℕ
  pub request_id : Bytes
  pub client : Client
  pub requested_scopes : List Bytes
  pub get_resource : Result Bytes
  pub form_prompt : Bytes
  pub form_max_age : Bytes
  pub form_code_challenge : Bytes
  pub requested_at : ℕ
  pub has_pushed_authorization_request : Bool
  pub reauthentication_token : Bytes
  pub interaction_id : Bytes
  pub request_params : List (Bytes × Bytes)
  pub meta : RequestMeta

-- Session, as far as it is filled here
pub record Session : Type 0 where
  pub subject : Bytes
  pub authentication_method : Bytes
  pub authentication_time : ℕ
  pub requested_at : ℕ

-- what the requester was granted
pub record Grant : Type 0 where
  pub session : Session
  pub audience : Bytes
  pub scopes : List Bytes

pub data AuthorizationResult : Type 0 where
  requires_interaction : Bytes → AuthorizationResult
  granted : Grant → AuthorizationResult

abbrev pub has_prompt : AuthorizeInput → Bytes → Bool
has_prompt input value = has_text (new_prompt_values input.form_prompt) value

-- the requirements of the request, or of the session that it resumes
unfoldable pub derived_requirements : AuthorizeInput → Bool → Bool → Requirements
derived_requirements input has_authorized too_old = record {
  consent_required =
      consent_required has_authorized input.client.skip_consent
        (new_prompt_values input.form_prompt);
  reauthentication_required =
      has_prompt input (bytes "login") || (input.client.requires_reauthentication || too_old);
  authentication_required = false;
  account_selection_required = has_prompt input (bytes "select_account");
}

abbrev pub session_requirements : InteractionSession → Requirements
session_requirements s = record {
  consent_required = s.consent_required;
  reauthentication_required = s.reauthentication_required;
  authentication_required = s.authentication_required;
  account_selection_required = s.account_selection_required;
}

abbrev pub effective_requirements : Requirements → Option InteractionSession → Requirements
effective_requirements derived none = derived
effective_requirements derived (some s) = session_requirements s

abbrev pub or_time : Option ℕ → ℕ → ℕ
or_time none t = t
or_time (some at) t = at

abbrev pub effective_time : ℕ → Option InteractionSession → ℕ
effective_time t none = t
effective_time t (some s) = or_time s.reauthenticated_at t

abbrev pub first_set : ℕ → ℕ → ℕ
first_set t fallback = if eqb t 0 then fallback else t

abbrev pub request_time : ℕ → Option InteractionSession → ℕ
request_time t none = t
request_time t (some s) = first_set s.requested_at t

-- `buildAuthorizedSession`
unfoldable pub build_authorized_session :
    AuthorizeInput → ℕ → Option InteractionSession → ℕ → Session
build_authorized_session input now session authentication_time = record {
  subject = input.user_id;
  authentication_method = input.authentication_method;
  authentication_time = first_set authentication_time now;
  requested_at = first_set (request_time input.requested_at session) now;
}

abbrev pub has_owner : Option Bytes → Bool
has_owner none = false
has_owner (some user_id) = true

unfoldable pub validate_interaction_session_binding :
    InteractionSession → AuthorizeInput → Result (Unit {0})
unfolding consent_scopes_include
validate_interaction_session_binding s input =
    if not (eq_bytes s.client_id input.client.id)
    then err invalid_request
    else if has_owner s.user_id && is_empty input.user_id
    then err login_required
    else if not (consent_scopes_include s.scopes input.requested_scopes)
    then err invalid_request
    else ok tt

-- The record that `createInteractionSession` passes on: it names the client by its ID, with the client
-- beside it as the table has it, and the database layer sets the time of creation.
unfoldable pub created_session : AuthorizeInput → Bytes → Requirements → InteractionSession
created_session input user_id r = record {
  id = input.request_id;
  created_at = 0;
  scopes = input.requested_scopes;
  client_id = input.client.id;
  client = input.client;
  user_id = if is_empty user_id then none else some user_id;
  consent_required = r.consent_required;
  reauthentication_required = r.reauthentication_required;
  authentication_required = r.authentication_required;
  account_selection_required = r.account_selection_required;
  requested_at = input.requested_at;
  reauthenticated_at = none;
  parameters = input.request_params;
}
