-- ===== src/Oidc/Steps.antt =====
-- backend/internal/oidc/authorization_service.go: how a user completes the steps of an interaction.
-- The URL that a user is sent back to is known by the ID of its session.
pub mod Order
pub mod Bounded
use pocket_id.Prelude.{
  ℕ, Bool, true, false, not, ◌&&◌, ◌||◌, Option, none, some, List, [], ◌∷◌, ◌++◌, if◌then◌else◌,
}
use pocket_id.AppError.{Error, plain}
use pocket_id.Result.{Result, ok, err}
use pocket_id.Exec.{Exec, pure, raise, ◌>>=◌, ◌>>◌}
use pocket_id.CallbackUrl.Bytes.{Bytes, bytes, eq_bytes}
use pocket_id.Oidc.Scopes.{has_text, login_required}
use pocket_id.Oidc.Resource.{
  subject_user, is_empty, is_standard_scope, resolve_resource, consent_keys_for_grant,
}
use pocket_id.Oidc.Consent.{
  Client, new_prompt_values, consent_required, requires_reauthentication_for_max_age,
  consent_rounds, has_authorized_client,
}
use pocket_id.Oidc.Interaction.{
  Step, authenticate, select_account, reauthenticate, consent, other, InteractionSession,
  Requirements, RequestMeta, new_client_authorization, Services, parameter,
  required_interaction_steps, has_remaining_interaction_steps, is_user,
  bind_interaction_session_user, narrow_interaction_scopes, interaction_not_found, unexpected_step,
  unknown_step, missing_reauthentication_token, lift, current_time, get_session, with_tx,
}

-- `interactionSessionForUser`
pub record InteractionForUser (C P : Type 0) : Type 0 where
  pub id : Bytes
  pub scopes : List Bytes
  pub scope_info : List P
  pub client : C
  pub current_step : Option Step
  pub required_steps : List Step

pub data Response (C P : Type 0) : Type 0 where
  redirect : Bytes → Response C P
  interaction : InteractionForUser C P → Response C P

-- what the request for a step brings
pub record StepInput : Type 0 where
  pub user_id : Bytes
  pub step : Step
  pub approved_scopes : Option (List Bytes)
  pub reauthentication_token : Bytes
  pub authentication_time : ℕ
  pub meta : RequestMeta

abbrev pub eq_step : Step → Step → Bool
eq_step authenticate authenticate = true
eq_step select_account select_account = true
eq_step reauthenticate reauthenticate = true
eq_step consent consent = true
eq_step (other a) (other b) = eq_bytes a b
eq_step _ _ = false

unfoldable pub custom_keys : List Bytes → List Bytes
custom_keys [] = []
custom_keys (s ∷ ss) = let rest = custom_keys ss in if is_standard_scope s then rest else s ∷ rest

abbrev pub first_step : List Step → Option Step
first_step [] = none
first_step (s ∷ ss) = some s

module _ {C P W : Type 0} (services : Services C P W) where
  unfoldable pub resolve_grant :
      Bytes → Bytes → List Bytes → Exec W (Bytes × List Bytes × List Bytes)
  resolve_grant client_id resource requested = do
    (audience, granted) ←
        resolve_resource services.provider client_id resource requested subject_user
    pure (audience, granted, consent_keys_for_grant audience resource granted)

  -- `consent`, of which two rounds are enough
  unfoldable pub record_consent : Bytes → Bytes → List Bytes → Exec W Bool
  record_consent = consent_rounds services.consents 2 (raise (plain "consent"))

  unfoldable pub interaction_requirements_for_user :
      Bytes → InteractionSession → ℕ → Exec W Requirements
  interaction_requirements_for_user user_id s authentication_time = do
    let prompt = new_prompt_values (parameter s.parameters (bytes "prompt"))
    (audience, granted, keys) ←
        resolve_grant s.client_id (parameter s.parameters (bytes "resource")) s.scopes
    has ← has_authorized_client services.consents s.client_id user_id keys
    now ← current_time services
    too_old ← lift (
        requires_reauthentication_for_max_age (parameter s.parameters (bytes "max_age"))
          authentication_time now)
    pure (record {
      consent_required = consent_required has s.client.skip_consent prompt;
      reauthentication_required =
          has_text prompt (bytes "login") || (s.client.requires_reauthentication || too_old);
      authentication_required = false;
      account_selection_required = has_text prompt (bytes "select_account");
    })

  unfoldable pub switch_interaction_session_user :
      InteractionSession → Bytes → ℕ → Exec W InteractionSession
  switch_interaction_session_user s user_id authentication_time =
      if is_empty user_id then raise login_required else do
        r ←
            interaction_requirements_for_user user_id (record s { user_id = some user_id })
              authentication_time
        pure (record s {
          user_id = some user_id;
          authentication_required = false;
          consent_required = r.consent_required;
          reauthentication_required = r.reauthentication_required;
          reauthenticated_at = none;
        })

  unfoldable pub populate_post_authentication_requirements :
      Bytes → InteractionSession → ℕ → Exec W InteractionSession
  populate_post_authentication_requirements user_id s authentication_time =
      if is_empty user_id then raise (plain "user is required to complete authentication") else do
        r ← interaction_requirements_for_user user_id s authentication_time
        pure (record s {
          consent_required = s.consent_required || r.consent_required;
          account_selection_required = s.account_selection_required || r.account_selection_required;
          reauthentication_required = s.reauthentication_required || r.reauthentication_required;
        })

  unfoldable pub complete_reauthentication_step :
      InteractionSession → Bytes → Bytes → Exec W InteractionSession
  complete_reauthentication_step s user_id token = do
    bound ← lift (bind_interaction_session_user s user_id)
    if is_empty token then raise missing_reauthentication_token else do
      at ← services.consume_reauthentication_token token user_id
      pure (record bound { reauthentication_required = false; reauthenticated_at = some at })

  abbrev pub audited : Bool → RequestMeta → Bytes → Bytes → Exec W (Unit {0})
  audited known meta user_id name w = (
    ok tt,
    if known then w else services.create_audit_log new_client_authorization meta user_id name w,
  )

  unfoldable pub complete_consent_step :
      InteractionSession → Bytes → Option (List Bytes) → RequestMeta → Exec W InteractionSession
  complete_consent_step s user_id approved meta = do
    bound ← lift (bind_interaction_session_user s user_id)
    narrowed ← lift (narrow_interaction_scopes bound approved)
    (audience, granted, keys) ←
        resolve_grant narrowed.client_id (parameter narrowed.parameters (bytes "resource"))
          narrowed.scopes
    known ← record_consent user_id narrowed.client_id keys
    audited known meta user_id narrowed.client.name
    pure (record narrowed { consent_required = false })

  unfoldable pub apply_interaction_step :
      InteractionSession → Bytes → Step → StepInput → Exec W InteractionSession
  apply_interaction_step s user_id authenticate input = do
    bound ← lift (bind_interaction_session_user s user_id)
    populate_post_authentication_requirements user_id
        (record bound { authentication_required = false }) input.authentication_time
  apply_interaction_step s user_id select_account input = do
    switched ← switch_interaction_session_user s user_id input.authentication_time
    pure (record switched { account_selection_required = false })
  apply_interaction_step s user_id reauthenticate input =
      complete_reauthentication_step s user_id input.reauthentication_token
  apply_interaction_step s user_id consent input =
      complete_consent_step s user_id input.approved_scopes input.meta
  apply_interaction_step s user_id (other step) input = raise unknown_step

  -- the session for the user of the request
  unfoldable pub switched_for : InteractionSession → StepInput → Exec W InteractionSession
  switched_for s input =
      if is_user s.user_id input.user_id
      then pure s
      else switch_interaction_session_user s input.user_id input.authentication_time

  -- the session after the step, and whether there was none to complete
  unfoldable pub on_required :
      List Step → InteractionSession → StepInput → Exec W (InteractionSession × Bool)
  on_required [] s input = pure (s, true)
  on_required (first ∷ steps) s input =
      if not (eq_step first input.step) then raise unexpected_step else do
        applied ← apply_interaction_step s input.user_id input.step input
        services.update_session applied
        pure (applied, false)

  -- `completeInteractionStep`, once the session is loaded
  unfoldable pub advance : InteractionSession → StepInput → Exec W (InteractionSession × Bool)
  advance loaded input = do
    s ← switched_for loaded input
    if is_empty input.user_id
        then raise login_required
        else on_required (required_interaction_steps s) s input

  abbrev pub advance_found :
      Option InteractionSession → StepInput → Exec W (InteractionSession × Bool)
  advance_found none input = raise interaction_not_found
  advance_found (some s) input = advance s input

  -- the transaction of `completeInteractionStep`
  unfoldable pub load_and_advance : Bytes → StepInput → Exec W (InteractionSession × Bool)
  load_and_advance id input = do found ← get_session services id; advance_found found input

  abbrev pub describe : Bytes → List Bytes → Exec W (List P)
  describe resource [] = pure []
  describe resource (k ∷ ks) = services.describe_permissions resource (k ∷ ks)

  unfoldable pub resolve_scope_info_for_request : Bytes → List Bytes → Exec W (List P)
  unfolding custom_keys
  resolve_scope_info_for_request resource scopes =
      if is_empty resource then pure [] else describe resource (custom_keys scopes)

  unfoldable pub build_interaction_for_user : InteractionSession → Exec W (InteractionForUser C P)
  build_interaction_for_user s = do
    client ← services.map_client s.client
    info ← resolve_scope_info_for_request (parameter s.parameters (bytes "resource")) s.scopes
    pure (record {
      id = s.id;
      scopes = s.scopes;
      scope_info = info;
      client = client;
      current_step = first_step (required_interaction_steps s);
      required_steps = required_interaction_steps s;
    })

  unfoldable pub respond : InteractionSession × Bool → Exec W (Response C P)
  respond (s, completed) =
      if completed || not (has_remaining_interaction_steps s)
      then pure (redirect s.id)
      else do for_user ← build_interaction_for_user s; pure (interaction for_user)

  unfoldable pub complete_interaction_step : Bytes → StepInput → Exec W (Response C P)
  complete_interaction_step id input = do
    after ← with_tx services (load_and_advance id input)
    respond after
