-- ===== src/Oidc/Tests.antt =====
-- The theorems on backend/internal/oidc at concrete requests.
mod DeviceCodes
mod Stepping
use pocket_id.Prelude.{
  ◌+◌, ◌*◌, ◌≤◌, Bool, true, false, ◌||◌, Option, none, some, List, [], ◌∷◌, ◌≡◌, ◌≢◌, ◌⊎◌, refl,
  arith, leb, if◌then◌else◌,
}
use pocket_id.AppError.{plain}
use pocket_id.Result.{Result, ok}
use pocket_id.Exec.{Exec, pure, raise, ◌>>=◌}
use pocket_id.CallbackUrl.Bytes.{Bytes, bytes, value_from}
use pocket_id.Oidc.Scopes.{has_text}
use pocket_id.Oidc.Resource.{
  Access, Provider, is_standard_scope, trim_slashes, collect, grant_from, grant_api,
  resolve_resource, consent_scope_key, consent_scope_keys, consent_audience_key,
  consent_keys_for_grant,
}
use pocket_id.Oidc.Resource.Keys.{consent_scope_key_injective}
use pocket_id.Oidc.Consent.{
  Client, User, Consents, words_from, new_prompt_values, consent_required,
  validate_client_pkce_requirement, parse_uint, parse_max_age, is_over,
  requires_reauthentication_for_max_age, consent_scopes_include, add_unseen, merge_consent_scopes,
  keep_approved, narrow_approved_scopes, group_allowed, is_user_group_allowed_to_authorize,
  consent_again, consent_first, consent_rounds, has_authorized_client,
}
use pocket_id.Oidc.Consent.MaxAge.{requires_reauthentication_for_max_age_bounded}
use pocket_id.Oidc.Consent.Merging.{Distinct, merge_consent_scopes-Union, include_sound}
use pocket_id.Oidc.Consent.Narrowing.{Narrowed, narrow_approved_scopes-Narrowed}
use pocket_id.Oidc.Consent.Recording.{
  TableLaws, Consented, consent-Consented, consent-rounds_enough, consent-has_authorized_client,
}
use pocket_id.Oidc.Interaction.{
  consent, InteractionSession, any_required, Services, parameter, set_parameter, join_words,
  required_interaction_steps, bind_interaction_session_user, narrow_interaction_scopes, with_tx,
}
use pocket_id.Oidc.Steps.{
  StepInput, resolve_grant, record_consent, complete_consent_step, apply_interaction_step,
  switched_for, on_required, advance,
}
use pocket_id.Oidc.Request.{
  AuthorizeInput, Session, Grant, granted, derived_requirements, build_authorized_session,
}
use pocket_id.Oidc.Authorization.{
  try_reauthentication, checked_requirements, resolve_requirements, switched_session, use_session,
  grant_request, authorize_user, authorize_authenticated, bound_interaction_session, check_grant,
  with_claims, authorize_signed_in, authorize,
}
use pocket_id.Oidc.Authorization.Guarantees.{Authorized, authorize-Authorized}

-- the record of one client and one user
abbrev pub Table : Type 0
Table = Option (List Bytes)

abbrev pub insert_at : List Bytes → Table → Result Bool × Table
insert_at ss none = (ok true, some ss)
insert_at ss (some old) = (ok false, some old)

abbrev pub table : Consents Table
table = record {
  find = λ c u w. (ok w, w);
  touch = λ c u w. (ok tt, w);
  replace = λ c u ss w. (ok tt, some ss);
  create = λ c u ss w. insert_at ss w;
}

inserted : (ss : List Bytes) (w w' : Table) → insert_at ss w ≡ (ok true, w') → w' ≡ some ss
inserted ss none w' h = cc
inserted ss (some old) w' h = cc

not_inserted : (ss : List Bytes) (w w' : Table) → insert_at ss w ≡ (ok false, w') → w' ≢ none
not_inserted ss none w' h = cc
not_inserted ss (some old) w' h = λ e. cc

table_laws : TableLaws table
table_laws = record {
  recorded = λ w c u. w;
  find_lem = λ c u w w' o h. (cc, cc);
  touch_lem = λ c u w w' h. cc;
  replace_lem = λ c u ss old w w' is h. cc;
  create_lem = λ c u ss w w' h. inserted ss w w' h;
  duplicate_lem = λ c u ss w w' h. not_inserted ss w w' h;
}

abbrev pub api_access : Access
api_access = record { scopes = bytes "read" ∷ []; api_exists = true; has_access = true }

abbrev pub apis : Provider Table
apis = record {
  is_valid_resource_indicator_uri = λ r. true;
  arguments_has = has_text;
  allowed_scopes_for_audience = λ c r s w. (ok api_access, w);
}

abbrev pub client : Client
client = record {
  id = bytes "app";
  name = bytes "App";
  pkce_enabled = true;
  pkce_supported = true;
  requires_pushed_authorization_requests = false;
  requires_reauthentication = false;
  skip_consent = true;
  is_group_restricted = true;
  allowed_user_groups = bytes "staff" ∷ [];
}

abbrev pub user : User
user = record { id = bytes "u"; user_groups = bytes "all" ∷ bytes "staff" ∷ [] }

abbrev pub session : InteractionSession
session = record {
  id = bytes "s";
  created_at = 5;
  scopes = bytes "openid" ∷ bytes "read" ∷ [];
  client_id = bytes "app";
  client = client;
  user_id = none;
  consent_required = true;
  reauthentication_required = false;
  authentication_required = false;
  account_selection_required = false;
  requested_at = 5;
  reauthenticated_at = none;
  parameters = (bytes "resource", bytes "r") ∷ [];
}

abbrev pub services : Services (Unit {0}) (Unit {0}) Table
services = record {
  provider = apis;
  consents = table;
  now = λ w. (10, w);
  find_session = λ id w. (ok (some session), w);
  create_session = λ s w. (ok s, w);
  update_session = λ s w. (ok tt, w);
  delete_session = λ id w. (ok 1, w);
  find_user = λ id w. (ok (some user), w);
  flag_pkce_supported = λ id w. w;
  consume_reauthentication_token = λ t u w. (ok 9, w);
  create_audit_log = λ e m u n w. w;
  begin_transaction = λ w. (ok tt, w);
  commit_transaction = λ w. (ok tt, w);
  rollback = λ w. w;
  map_client = λ c w. (ok tt, w);
  describe_permissions = λ r ks w. (ok [], w);
}

consent_scope_key_injective_example :
    (bytes "read" ≡ bytes "read")
    × ((is_standard_scope (bytes "read") ≡ true) ⊎ (bytes "r" ≡ bytes "r"))
consent_scope_key_injective_example =
    consent_scope_key_injective (bytes "r") (bytes "r") (bytes "read") (bytes "read") refl refl refl

requires_reauthentication_for_max_age_bounded_example :
    requires_reauthentication_for_max_age (bytes "60") 5 60000000004
    ≡ ok (
        if leb (value_from 0 (bytes "60")) 9223372036
        then leb (5 + value_from 0 (bytes "60") * 1000000000) 60000000004
        else true)
unfolding value_from
requires_reauthentication_for_max_age_bounded_example =
    requires_reauthentication_for_max_age_bounded (bytes "60") 5 60000000004 (λ h. cc) refl
      (omega arith) (omega arith) (omega arith)

abbrev old_scopes : List Bytes
old_scopes = bytes "a" ∷ bytes "b" ∷ []

abbrev new_scopes : List Bytes
new_scopes = bytes "c" ∷ bytes "b" ∷ []

merge_consent_scopes-Union_example :
    ((t : Bytes)
      → has_text (merge_consent_scopes old_scopes new_scopes) t
        ≡ (has_text old_scopes t || has_text new_scopes t))
    × Distinct (merge_consent_scopes old_scopes new_scopes)
merge_consent_scopes-Union_example = merge_consent_scopes-Union old_scopes new_scopes

narrowing :
    narrow_approved_scopes (bytes "openid" ∷ old_scopes) (some (bytes "b" ∷ []))
    ≡ ok (bytes "openid" ∷ bytes "b" ∷ [])
unfolding narrow_approved_scopes keep_approved consent_scopes_include
narrowing = refl

narrow_approved_scopes-Narrowed_example :
    Narrowed (bytes "openid" ∷ old_scopes) (bytes "b" ∷ []) (bytes "openid" ∷ bytes "b" ∷ [])
narrow_approved_scopes-Narrowed_example =
    narrow_approved_scopes-Narrowed (bytes "openid" ∷ old_scopes) (bytes "b" ∷ [])
      (bytes "openid" ∷ bytes "b" ∷ []) narrowing

abbrev unused : Exec Table Bool
unused = raise (plain "unused")

consenting :
    consent_rounds table 2 unused (bytes "u") (bytes "app") new_scopes (some old_scopes)
    ≡ (ok false, some (bytes "a" ∷ bytes "b" ∷ bytes "c" ∷ []))
unfolding consent_rounds consent_again consent_scopes_include merge_consent_scopes add_unseen ◌>>=◌
consenting = refl

consent-Consented_example :
    Consented table table_laws
      (bytes "app")
      (bytes "u")
      new_scopes
      (some old_scopes)
      false
      (some (bytes "a" ∷ bytes "b" ∷ bytes "c" ∷ []))
consent-Consented_example =
    consent-Consented table table_laws 0 unused (bytes "u") (bytes "app") new_scopes
      (some old_scopes) (some (bytes "a" ∷ bytes "b" ∷ bytes "c" ∷ [])) false consenting

consent-rounds_enough_example :
    consent_rounds table 5 unused (bytes "u") (bytes "app") new_scopes none
    ≡ consent_rounds table 2 (pure true) (bytes "u") (bytes "app") new_scopes none
consent-rounds_enough_example =
    consent-rounds_enough table table_laws 3 unused (pure true) (bytes "u") (bytes "app") new_scopes
      none

asking :
    has_authorized_client table
      (bytes "app")
      (bytes "u")
      (bytes "c" ∷ [])
      (some (bytes "a" ∷ bytes "b" ∷ bytes "c" ∷ []))
    ≡ (ok true, some (bytes "a" ∷ bytes "b" ∷ bytes "c" ∷ []))
unfolding has_authorized_client consent_scopes_include ◌>>=◌
asking = refl

part_of : consent_scopes_include new_scopes (bytes "c" ∷ []) ≡ true
unfolding consent_scopes_include
part_of = refl

consent-has_authorized_client_example : true ≡ true
consent-has_authorized_client_example =
    consent-has_authorized_client table table_laws (bytes "u") (bytes "app") new_scopes
      (bytes "c" ∷ []) (some old_scopes) (some (bytes "a" ∷ bytes "b" ∷ bytes "c" ∷ []))
      (some (bytes "a" ∷ bytes "b" ∷ bytes "c" ∷ [])) false true unused consenting
      (include_sound new_scopes (bytes "c" ∷ []) part_of) asking

abbrev authorize_input : AuthorizeInput
authorize_input = record {
  user_id = bytes "u";
  authentication_method = bytes "passkey";
  authentication_time = 7;
  request_id = bytes "req";
  client = client;
  requested_scopes = bytes "openid" ∷ bytes "read" ∷ [];
  get_resource = ok (bytes "r/");
  form_prompt = [];
  form_max_age = bytes "60";
  form_code_challenge = bytes "abc";
  requested_at = 8;
  has_pushed_authorization_request = false;
  reauthentication_token = [];
  interaction_id = [];
  request_params = [];
  meta = record { ip_address = []; user_agent = [] };
}

abbrev grant_made : Grant
grant_made = record {
  session = record {
    subject = bytes "u";
    authentication_method = bytes "passkey";
    authentication_time = 7;
    requested_at = 8;
  };
  audience = bytes "r";
  scopes = bytes "openid" ∷ bytes "read" ∷ [];
}

abbrev keep_claims : Session → List Bytes → Client → Exec Table Session
keep_claims s ss c w = (ok s, w)

authorizing : authorize services keep_claims authorize_input none ≡ (
  ok (granted grant_made),
  some (
      bytes "openid"
      ∷ consent_scope_key (bytes "r") (bytes "read")
      ∷ consent_audience_key (bytes "r")
      ∷ []),
)
unfolding authorize validate_client_pkce_requirement bound_interaction_session check_grant
    authorize_signed_in authorize_authenticated authorize_user is_user_group_allowed_to_authorize
    group_allowed switched_session resolve_requirements checked_requirements try_reauthentication
    derived_requirements consent_required new_prompt_values words_from
    requires_reauthentication_for_max_age parse_max_age parse_uint is_over value_from
    has_authorized_client any_required grant_request use_session build_authorized_session with_tx
    with_claims consent_scopes_include resolve_grant resolve_resource grant_api grant_from collect
    is_standard_scope trim_slashes record_consent consent_rounds consent_first merge_consent_scopes
    add_unseen consent_keys_for_grant consent_scope_keys consent_scope_key consent_audience_key
    ◌>>=◌
authorizing = refl

authorize-Authorized_example : Authorized services keep_claims authorize_input grant_made none (
    some (
      bytes "openid"
      ∷ consent_scope_key (bytes "r") (bytes "read")
      ∷ consent_audience_key (bytes "r")
      ∷ []))
authorize-Authorized_example =
    authorize-Authorized services keep_claims authorize_input grant_made none
      (some (
        bytes "openid"
        ∷ consent_scope_key (bytes "r") (bytes "read")
        ∷ consent_audience_key (bytes "r")
        ∷ []))
      authorizing
