-- ===== src/Api.antt =====
-- backend/internal/api/service.go: the custom APIs, and which client may reach which of them with which
-- permissions. gorm's queries are the operations of `ApiStore`, their joins included. Of an API and
-- of a permission the fields that the modelled operations read are kept.
pub mod Provided
pub mod Applied
pub mod Keys
mod Tests
use pocket_id.Prelude.{
  ℕ, ◌+◌, String, Bool, true, false, not, ◌&&◌, ◌||◌, Option, none, some, List, [], ◌∷◌, ◌++◌, map,
  eqb, leb, if◌then◌else◌,
}
use pocket_id.AppError.{Error, app, new_error, with_detail, with_fields}
use pocket_id.Result.{Result, ok, err}
use pocket_id.Exec.{Exec, pure, raise, ◌>>=◌, ◌>>◌}
use pocket_id.CallbackUrl.Bytes.{Bytes, bytes, eq_bytes}
use pocket_id.Outbound.Text.{to_lower}
use pocket_id.Oidc.Scopes.{has_text}
use pocket_id.Oidc.Resource.{
  SubjectType, subject_user, subject_client, Access, Provider, is_client_subject, is_empty,
  trim_slashes,
}

pub record Permission : Type 0 where
  pub id : Bytes
  pub key : Bytes

pub record Api : Type 0 where
  pub id : Bytes
  pub audience : Bytes
  pub permissions : List Permission

-- `APIClientGrant`
pub record ApiClientGrant : Type 0 where
  pub user_delegated_access : Bool
  pub client_access : Bool
  pub user_delegated_permission_ids : List Bytes
  pub client_permission_ids : List Bytes

-- `cimdGrantedAccessRows`: the IDs of the APIs and the keys of the permissions
pub record CimdAccess : Type 0 where
  pub api_ids : List Bytes
  pub scopes : List Bytes

pub record ApiStore (W : Type 0) : Type 0 where
  -- the ID of the API and whether it admits CIMD clients, none where there is none
  pub find_by_audience : Bytes → Exec W (Option (Bytes × Bool))
  pub count_grants : Bytes → Bytes → SubjectType → Exec W ℕ
  pub granted_keys : Bytes → Bytes → SubjectType → Exec W (List Bytes)
  -- the two queries of `cimdGrantedAccess`, for one API
  pub cimd_api_ids : Bytes → Bytes → Exec W (List Bytes)
  pub cimd_keys : List Bytes → Exec W (List Bytes)
  pub find_api : Bytes → Exec W (Option Api)
  -- whether the client is public
  pub find_client : Bytes → Exec W (Option Bool)
  pub create_api : Bytes → Bytes → Exec W (Option Api)
  pub delete_api_grants : Bytes → Bytes → Exec W (Unit {0})
  pub delete_permission_grants : Bytes → List Bytes → Exec W (Unit {0})
  pub insert_api_grants : Bytes → List (Bytes × SubjectType) → Exec W (Unit {0})
  pub insert_permission_grants : Bytes → List (Bytes × SubjectType) → Exec W (Unit {0})
  pub begin_transaction : W → W
  pub commit_transaction : Exec W (Unit {0})
  pub rollback : W → W

abbrev pub not_found : String → String → Error
not_found resource message =
    app (with_detail "resource" resource (new_error "not_found" 404 message))

abbrev pub api_not_found : Error
api_not_found = not_found "API" "API not found"

abbrev pub client_not_found : Error
client_not_found = not_found "OIDC client" "OIDC client not found"

-- `InvalidField`, of the resource and of a permission's key; of the latter without its index, and the
-- message of the error without the field before it
abbrev pub invalid_field : String → String → String → Error
invalid_field field code message = app (
    with_fields (record { field = field; code = code; message = message } ∷ [])
      (new_error "validation_failed" 400 message))

unfoldable pub is_permission_key_reserved : Bytes → Bool
unfolding to_lower
is_permission_key_reserved key =
    has_text
      (bytes "openid"
        ∷ bytes "profile"
        ∷ bytes "email"
        ∷ bytes "email_verified"
        ∷ bytes "groups"
        ∷ bytes "offline_access"
        ∷ [])
      (to_lower key)

-- the checks of `UpdatePermissions`, where `is_valid` is fosite.IsValidScopeToken
unfoldable pub check_keys : (Bytes → Bool) → List Bytes → List Bytes → Result (Unit {0})
unfolding is_permission_key_reserved
check_keys is_valid seen [] = ok tt
check_keys is_valid seen (key ∷ keys) =
    let rest = check_keys is_valid (key ∷ seen) keys in
    if not (is_valid key)
    then err (
        invalid_field "permissions.key" "invalid_format"
          "contains characters that are not valid in an OAuth scope")
    else if is_permission_key_reserved key
    then err (invalid_field "permissions.key" "reserved" "is reserved by Pocket ID")
    else if has_text seen key
    then err (invalid_field "permissions.key" "duplicate" "is listed more than once")
    else rest

unfoldable pub is_issuer_audience : Bytes → Bytes → Bool
unfolding to_lower trim_slashes
is_issuer_audience audience issuer =
    not (is_empty issuer) && eq_bytes (to_lower (trim_slashes audience)) issuer

unfoldable pub intersect_ids : List Bytes → List Bytes → List Bytes
intersect_ids [] requested = []
intersect_ids (id ∷ ids) requested =
    let rest = intersect_ids ids requested in if has_text requested id then id ∷ rest else rest

unfoldable pub collect_ids : List Permission → List Bytes
collect_ids permissions = map (λ p. p.id) permissions

-- the grant that `SetAPIClientAccess` stores, for the API's permissions
unfoldable pub applied_grant : List Bytes → Bool → ApiClientGrant → ApiClientGrant
unfolding intersect_ids
applied_grant ids is_public grant =
    let user_ids = intersect_ids ids grant.user_delegated_permission_ids in
    let client_ids = if is_public then [] else intersect_ids ids grant.client_permission_ids in
    record {
      user_delegated_access = grant.user_delegated_access || not (is_empty user_ids);
      client_access = (not is_public && grant.client_access) || not (is_empty client_ids);
      user_delegated_permission_ids = user_ids;
      client_permission_ids = client_ids;
    }

abbrev pub rows_for : SubjectType → List Bytes → List (Bytes × SubjectType)
rows_for subject ids = map (λ id. (id, subject)) ids

-- the scopes that are not among the first list yet
unfoldable pub add_missing : List Bytes → List Bytes → List Bytes
add_missing scopes [] = scopes
add_missing scopes (s ∷ ss) =
    add_missing (if has_text scopes s then scopes else scopes ++ (s ∷ [])) ss

module _ {W : Type 0} (store : ApiStore W) where
  abbrev pub cimd_rows : List Bytes → Exec W CimdAccess
  cimd_rows [] = pure (record { api_ids = []; scopes = [] })
  cimd_rows (id ∷ ids) = do
    keys ← store.cimd_keys (id ∷ ids)
    pure (record { api_ids = id ∷ ids; scopes = keys })

  -- `cimdGrantedAccess`, for one API
  unfoldable pub cimd_granted_access : Bytes → Bytes → Exec W CimdAccess
  cimd_granted_access client_id api_id = do ids ← store.cimd_api_ids client_id api_id; cimd_rows ids

  -- once the API is found
  unfoldable pub allowed_scopes_of : Bytes → SubjectType → Option (Bytes × Bool) → Exec W Access
  unfolding add_missing
  allowed_scopes_of client_id subject none =
      pure (record { scopes = []; api_exists = false; has_access = false })
  allowed_scopes_of client_id subject (some (api_id, allow_cimd)) = do
    count ← store.count_grants client_id api_id subject
    keys ← store.granted_keys client_id api_id subject
    if allow_cimd && not (is_client_subject subject)
        then (do
          cimd ← cimd_granted_access client_id api_id
          pure (record {
            scopes = add_missing keys cimd.scopes;
            api_exists = true;
            has_access = not (eqb count 0) || not (is_empty cimd.api_ids);
          }))
        else pure (record { scopes = keys; api_exists = true; has_access = not (eqb count 0) })

  unfoldable pub allowed_scopes_for_audience : Bytes → Bytes → SubjectType → Exec W Access
  allowed_scopes_for_audience client_id audience subject = do
    found ← store.find_by_audience audience
    allowed_scopes_of client_id subject found

  -- the module as the provider of backend/internal/oidc, beside fosite's functions
  abbrev pub provider : (Bytes → Bool) → (List Bytes → Bytes → Bool) → Provider W
  provider is_valid_uri arguments_has = record {
    is_valid_resource_indicator_uri = is_valid_uri;
    arguments_has = arguments_has;
    allowed_scopes_for_audience = allowed_scopes_for_audience;
  }

  abbrev pub found_api : Option Api → Exec W Api
  found_api none = raise api_not_found
  found_api (some api) = pure api

  -- `Get`
  unfoldable pub get_api : Bytes → Exec W Api
  get_api id = do found ← store.find_api id; found_api found

  abbrev pub found_client : Option Bool → Exec W Bool
  found_client none = raise client_not_found
  found_client (some is_public) = pure is_public

  -- `loadOIDCClient`
  unfoldable pub load_oidc_client : Bytes → Exec W Bool
  load_oidc_client id = do found ← store.find_client id; found_client found

  unfoldable pub delete_api_client_grants : Bytes → List Bytes → Bytes → Exec W (Unit {0})
  delete_api_client_grants api_id permission_ids client_id = do
    store.delete_api_grants client_id api_id
    if is_empty permission_ids
        then pure tt
        else store.delete_permission_grants client_id permission_ids

  -- the rows of `insertClientGrants`, for one API
  unfoldable pub insert_client_grants : Bytes → Bytes → ApiClientGrant → Exec W (Unit {0})
  insert_client_grants api_id client_id g = do
    let apis =
        (if g.user_delegated_access then (api_id, subject_user) ∷ [] else [])
        ++ (if g.client_access then (api_id, subject_client) ∷ [] else [])
    let permissions =
        rows_for subject_user g.user_delegated_permission_ids
        ++ rows_for subject_client g.client_permission_ids
    if is_empty apis then pure tt else store.insert_api_grants client_id apis
    if is_empty permissions then pure tt else store.insert_permission_grants client_id permissions

  -- between `Begin` and the deferred `Rollback`
  unfoldable pub in_transaction : {B : Type 0} → Exec W B → Exec W B
  in_transaction m w = let (r, w') = m (store.begin_transaction w) in (r, store.rollback w')

  unfoldable pub set_access_inside : Bytes → Bytes → ApiClientGrant → Exec W ApiClientGrant
  unfolding applied_grant collect_ids
  set_access_inside api_id client_id grant = do
    api ← get_api api_id
    is_public ← load_oidc_client client_id
    let ids = collect_ids api.permissions
    delete_api_client_grants api.id ids client_id
    insert_client_grants api.id client_id (applied_grant ids is_public grant)
    store.commit_transaction
    pure (applied_grant ids is_public grant)

  unfoldable pub set_api_client_access : Bytes → Bytes → ApiClientGrant → Exec W ApiClientGrant
  set_api_client_access api_id client_id grant =
      in_transaction (set_access_inside api_id client_id grant)

  unfoldable pub remove_api_client_access : Bytes → Bytes → Exec W (Unit {0})
  unfolding collect_ids
  remove_api_client_access api_id client_id = in_transaction (do
    api ← get_api api_id
    load_oidc_client client_id
    delete_api_client_grants api.id (collect_ids api.permissions) client_id
    store.commit_transaction)

  abbrev pub created_api : Option Api → Exec W Api
  created_api none = raise (
      app (
        with_detail "property" "resource"
          (new_error "already_in_use" 409 "resource is already in use")))
  created_api (some api) = pure api

  -- `Create`, none from the store for a duplicated key
  unfoldable pub create_api : Bytes → Bytes → Bytes → Exec W Api
  unfolding is_issuer_audience trim_slashes
  create_api issuer name resource =
      if is_issuer_audience (trim_slashes resource) issuer
      then raise (
          invalid_field "resource" "reserved"
            "is reserved by Pocket ID and cannot be used for a custom API")
      else do created ← store.create_api name (trim_slashes resource); created_api created
