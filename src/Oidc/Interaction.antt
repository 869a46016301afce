-- ===== src/Oidc/Interaction.antt =====
-- The interaction that an authorization request may need: InteractionSession in
-- backend/internal/oidc/models.go, its steps in interaction_session_dto.go, its life in
-- interaction_session_service.go, and what changes it without the database in
-- authorization_service.go. The database, the clock, the API access, the reauthentication tokens and
-- the audit log are the operations of `Services`; the consumer of reauthentication tokens and the
-- audit log are given. `P` is dto.ScopeInfoDto and `C` interactionClient.
use pocket_id.Prelude.{
  ℕ, ◌-◌, Bool, true, not, ◌||◌, Option, none, some, List, [], ◌∷◌, ◌++◌, eqb, ltb, if◌then◌else◌,
}
use pocket_id.AppError.{Error, app, new_error, with_detail, with_fields}
use pocket_id.Result.{Result, ok, err}
use pocket_id.Exec.{Exec, pure, wrapping, ◌>>=◌, ◌>>◌}
use pocket_id.CallbackUrl.Bytes.{Bytes, bytes, eq_bytes}
use pocket_id.Oidc.Scopes.{login_required, invalid_request}
use pocket_id.Oidc.Resource.{Provider, is_empty}
use pocket_id.Oidc.Consent.{Client, User, Consents, narrow_approved_scopes}

pub data Step : Type 0 where
  authenticate select_account reauthenticate consent : Step
  other : Bytes → Step

pub record InteractionSession : Type 0 where
  pub id : Bytes
  pub created_at : ℕ
  pub scopes : List Bytes
  pub client_id : Bytes
  pub client : Client
  pub user_id : Option Bytes
  pub consent_required : Bool
  pub reauthentication_required : Bool
  pub authentication_required : Bool
  pub account_selection_required : Bool
  pub requested_at : ℕ
  pub reauthenticated_at : Option ℕ
  pub parameters : List (Bytes × Bytes)

pub record Requirements : Type 0 where
  pub consent_required : Bool
  pub reauthentication_required : Bool
  pub authentication_required : Bool
  pub account_selection_required : Bool

-- `any`
unfoldable pub any_required : Requirements → Bool
any_required r =
    r.consent_required || r.reauthentication_required || r.authentication_required
    || r.account_selection_required

-- `requestMeta`
pub record RequestMeta : Type 0 where
  pub ip_address : Bytes
  pub user_agent : Bytes

pub data AuditEvent : Type 0 where
  client_authorization new_client_authorization : AuditEvent

pub record Services (C P W : Type 0) : Type 0 where
  pub provider : Provider W
  pub consents : Consents W
  pub now : W → ℕ × W
  -- gorm's calls on the table of sessions: none where none has the ID, the record that was created,
  -- and the rows deleted
  pub find_session : Bytes → Exec W (Option InteractionSession)
  pub create_session : InteractionSession → Exec W InteractionSession
  pub update_session : InteractionSession → Exec W (Unit {0})
  pub delete_session : Bytes → Exec W ℕ
  pub find_user : Bytes → Exec W (Option User)
  pub flag_pkce_supported : Bytes → W → W
  pub consume_reauthentication_token : Bytes → Bytes → Exec W ℕ
  pub create_audit_log : AuditEvent → RequestMeta → Bytes → Bytes → W → W
  pub begin_transaction : Exec W (Unit {0})
  pub commit_transaction : Exec W (Unit {0})
  pub rollback : W → W
  -- `dto.MapStruct` of the client, and `DescribePermissions`
  pub map_client : Client → Exec W C
  pub describe_permissions : Bytes → List Bytes → Exec W (List P)

-- `interactionSessionLifetime`, in nanoseconds
abbrev pub interaction_session_lifetime : ℕ
interaction_session_lifetime = 3600000000000

-- `Parameters[key]`, "" for a missing key
unfoldable pub parameter : List (Bytes × Bytes) → Bytes → Bytes
parameter [] key = []
parameter ((k, v) ∷ ps) key = if eq_bytes k key then v else parameter ps key

-- `Parameters[key] = value`
unfoldable pub set_parameter : Bytes → Bytes → List (Bytes × Bytes) → List (Bytes × Bytes)
set_parameter key value [] = (key, value) ∷ []
set_parameter key value ((k, v) ∷ ps) =
    if eq_bytes k key then (key, value) ∷ ps else (k, v) ∷ set_parameter key value ps

-- `strings.Join(texts, " ")`
unfoldable pub join_words : List Bytes → Bytes
join_words [] = []
join_words (t ∷ []) = t
join_words (t ∷ u ∷ ts) = t ++ (32 ∷ join_words (u ∷ ts))

abbrev pub step_if : Bool → Step → List Step → List Step
step_if b s steps = if b then s ∷ steps else steps

unfoldable pub required_interaction_steps : InteractionSession → List Step
required_interaction_steps s = step_if s.authentication_required authenticate (
    step_if s.account_selection_required select_account
      (step_if s.reauthentication_required reauthenticate (step_if s.consent_required consent [])))

unfoldable pub has_remaining_interaction_steps : InteractionSession → Bool
has_remaining_interaction_steps s =
    s.authentication_required || s.account_selection_required || s.reauthentication_required
    || s.consent_required

abbrev pub is_user : Option Bytes → Bytes → Bool
is_user none user_id = true
is_user (some bound) user_id = eq_bytes bound user_id

-- `bindInteractionSessionUser`
unfoldable pub bind_interaction_session_user :
    InteractionSession → Bytes → Result InteractionSession
bind_interaction_session_user s user_id =
    if is_empty user_id
    then err login_required
    else if not (is_user s.user_id user_id)
    then err invalid_request
    else ok (record s { user_id = some user_id })

abbrev pub rewritten : InteractionSession → Result (List Bytes) → Result InteractionSession
rewritten s (err e) = err e
rewritten s (ok narrowed) = ok (record s {
  scopes = narrowed;
  parameters = set_parameter (bytes "scope") (join_words narrowed) s.parameters;
})

-- `narrowInteractionScopes`
unfoldable pub narrow_interaction_scopes :
    InteractionSession → Option (List Bytes) → Result InteractionSession
unfolding narrow_approved_scopes set_parameter join_words
narrow_interaction_scopes s none = ok s
narrow_interaction_scopes s (some approved) =
    rewritten s (narrow_approved_scopes s.scopes (some approved))

abbrev pub interaction_not_found : Error
interaction_not_found = app (
    with_detail "resource" "OIDC interaction"
      (new_error "not_found" 404 "OIDC interaction not found or expired"))

abbrev pub par_required : Error
par_required =
    app (new_error "oidc_par_required" 400 "This client requires pushed authorization requests")

abbrev pub user_not_found : Error
user_not_found = app (new_error "user_not_found" 404 "User not found")

-- without the names of the two steps
abbrev pub unexpected_step : Error
unexpected_step = app (new_error "validation_failed" 400 "expected interaction step")

abbrev pub unknown_step : Error
unknown_step = app (new_error "validation_failed" 400 "unknown interaction step")

abbrev pub missing_reauthentication_token : Error
missing_reauthentication_token = app (
    with_fields
      (record { field = "reauthenticationToken"; code = "required"; message = "is required" } ∷ [])
      (new_error "validation_failed" 400 "reauthenticationToken is required"))

module _ {W A : Type 0} where
  abbrev pub lift : Result A → Exec W A
  lift r w = (r, w)

module _ {C P W : Type 0} (services : Services C P W) where
  abbrev pub current_time : Exec W ℕ
  current_time w = let (t, w') = services.now w in (ok t, w')

  abbrev pub unexpired : ℕ → InteractionSession → Option InteractionSession
  unexpired now s = if ltb interaction_session_lifetime (now - s.created_at) then none else some s

  abbrev pub on_found : Option InteractionSession → Exec W (Option InteractionSession)
  on_found none = pure none
  on_found (some s) = do now ← current_time; pure (unexpired now s)

  -- `get`: none for ErrRecordNotFound
  unfoldable pub get_session : Bytes → Exec W (Option InteractionSession)
  get_session id = do found ← services.find_session id; on_found found

  -- `delete`: false for ErrRecordNotFound
  unfoldable pub delete_session : Bytes → Exec W Bool
  delete_session id = do rows ← services.delete_session id; pure (not (eqb rows 0))

  abbrev pub closing : {A : Type 0} → Result A × W → Result A × W
  closing (ok a, w) = (ok a, w)
  closing (err e, w) = (err e, services.rollback w)

  -- `withTx`, where no transaction is open
  unfoldable pub with_tx : {A : Type 0} → Exec W A → Exec W A
  with_tx m = do
    wrapping "error starting transaction" services.begin_transaction
    λ w.
        closing (
          (do a ← m; wrapping "error committing transaction" services.commit_transaction; pure a) w)
