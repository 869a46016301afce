-- ===== src/Api/Provided.antt =====
-- What the API module, as the provider of the authorization service, lets a client be granted
-- (`AllowedScopesForAudience` in backend/internal/api/service.go behind `resolveResource` in
-- backend/internal/oidc/api_resource.go).
use pocket_id.Prelude.{ℕ, Bool, true, not, ◌||◌, some, List, [], ◌≡◌, All, eqb}
use pocket_id.Result.{ok}
use pocket_id.CallbackUrl.Bytes.{Bytes}
use pocket_id.Oidc.Scopes.{has_text}
use pocket_id.Oidc.Resource.{
  SubjectType, subject_user, Access, is_empty, trim_slashes, is_standard_scope,
}
use pocket_id.Api.{ApiStore, CimdAccess, cimd_granted_access}

module _ {W : Type 0} (store : ApiStore W) where
  -- what the database says of a client, an API and a subject
  pub data Permitted (client_id audience : Bytes) (subject : SubjectType) (access : Access)
      : Type 0 where
    -- grants of the client alone
    by_grant :
        (api_id : Bytes) (cimd : Bool) (count : ℕ) (keys : List Bytes) (v v' u u' x x' : W)
        → store.find_by_audience audience v ≡ (ok (some (api_id, cimd)), v')
        → store.count_grants client_id api_id subject u ≡ (ok count, u')
        → store.granted_keys client_id api_id subject x ≡ (ok keys, x')
        → access.has_access ≡ not (eqb count 0)
        → access.scopes ≡ keys
        → Permitted client_id audience subject access
    -- and what the API grants to all CIMD clients, for a user
    by_opt_in :
        (api_id : Bytes) (count : ℕ) (keys : List Bytes) (cimd : CimdAccess)
        (v v' u u' x x' y y' : W)
        → store.find_by_audience audience v ≡ (ok (some (api_id, true)), v')
        → subject ≡ subject_user
        → store.count_grants client_id api_id subject u ≡ (ok count, u')
        → store.granted_keys client_id api_id subject x ≡ (ok keys, x')
        → cimd_granted_access store client_id api_id y ≡ (ok cimd, y')
        → access.has_access ≡ (not (eqb count 0) || not (is_empty cimd.api_ids))
        → ((t : Bytes) → has_text access.scopes t ≡ (has_text keys t || has_text cimd.scopes t))
        → Permitted client_id audience subject access

  -- the client itself without a resource, or an API that it may reach
  pub data Reaches (client_id resource : Bytes) (subject : SubjectType) (audience : Bytes)
      (granted : List Bytes) : Type 0 where
    itself :
        resource ≡ []
        → audience ≡ client_id
        → All (λ s. is_standard_scope s ≡ true) granted
        → Reaches client_id resource subject audience granted
    custom :
        (access : Access)
        → audience ≡ trim_slashes resource
        → access.has_access ≡ true
        → Permitted client_id audience subject access
        → All (λ s. (is_standard_scope s || has_text access.scopes s) ≡ true) granted
        → Reaches client_id resource subject audience granted
