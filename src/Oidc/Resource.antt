-- ===== src/Oidc/Resource.antt =====
-- backend/internal/oidc/api_resource.go: the audience and the scopes that a request may be granted,
-- and the keys under which a user's consent to them is recorded.
pub mod Grants
pub mod Keys
use pocket_id.Prelude.{
  ℕ, Bool, true, false, not, ◌&&◌, ◌||◌, Option, none, some, List, [], ◌∷◌, ◌++◌, map, eqb, ◌≡◌,
  ◌≢◌, if◌then◌else◌,
}
use pocket_id.AppError.{Error}
use pocket_id.Result.{Result, ok, err}
use pocket_id.Exec.{Exec, pure, raise, ◌>>=◌, ◌>>◌}
use pocket_id.CallbackUrl.Bytes.{Bytes, bytes, eq_bytes}
use pocket_id.Oidc.Scopes.{has_text, invalid_target, access_denied, invalid_scope}

pub data SubjectType : Type 0 where
  subject_user subject_client : SubjectType

abbrev pub standard_scopes : List Bytes
standard_scopes =
    bytes "openid" ∷ bytes "profile" ∷ bytes "email" ∷ bytes "groups" ∷ bytes "offline_access" ∷ []

unfoldable pub is_standard_scope : Bytes → Bool
is_standard_scope scope = has_text standard_scopes scope

-- the answer of `AllowedScopesForAudience`
pub record Access : Type 0 where
  pub scopes : List Bytes
  pub api_exists : Bool
  pub has_access : Bool

-- `APIAccessProvider` over the database, and fosite's functions on resources and scopes
pub record Provider (W : Type 0) : Type 0 where
  pub is_valid_resource_indicator_uri : Bytes → Bool
  -- `granted.Has(scope)`
  pub arguments_has : List Bytes → Bytes → Bool
  pub allowed_scopes_for_audience : Bytes → Bytes → SubjectType → Exec W Access

-- `strings.TrimRight(resource, "/")`
unfoldable pub trim_slashes : Bytes → Bytes
trim_slashes [] = []
trim_slashes (c ∷ cs) = elim (trim_slashes cs) [
  | [] ↦ if eqb c 47 then [] else c ∷ []
  | d ∷ ds ↦ c ∷ d ∷ ds
]

-- the loop over the requested scopes
unfoldable pub collect :
    (List Bytes → Bytes → Bool) → (Bytes → Bool) → List Bytes → List Bytes → Result (List Bytes)
collect has_argument grantable granted [] = ok granted
collect has_argument grantable granted (s ∷ ss) =
    let rest =
      collect has_argument grantable
        (if has_argument granted s then granted else granted ++ (s ∷ [])) ss in
    if grantable s then rest else err invalid_scope

abbrev pub is_client_subject : SubjectType → Bool
is_client_subject subject_user = false
is_client_subject subject_client = true

abbrev pub is_empty : {A : Type 0} → List A → Bool
is_empty [] = true
is_empty (x ∷ xs) = false

pub not_empty : {A : Type 0} (xs : List A) → is_empty xs ≡ false → xs ≢ []
not_empty [] h = cc
not_empty (x ∷ xs) h = λ e. cc

module _ {W : Type 0} (provider : Provider W) where
  unfoldable pub grant_from : Bytes → (Bytes → Bool) → List Bytes → Exec W (Bytes × List Bytes)
  grant_from audience grantable requested w = (
    elim (collect provider.arguments_has grantable [] requested) [
      | ok granted ↦ ok (audience, granted)
      | err e ↦ err e
    ],
    w,
  )

  -- after the provider answered for the canonical resource
  unfoldable pub grant_api : Bytes → List Bytes → SubjectType → Access → Exec W (Bytes × List Bytes)
  grant_api resource requested subject access =
      if not access.api_exists
      then raise invalid_target
      else if not access.has_access
      then raise access_denied
      else grant_from resource (λ s. is_standard_scope s || has_text access.scopes s)
          (if is_client_subject subject && is_empty requested then access.scopes else requested)

  -- `resolveResource`, with a provider
  unfoldable pub resolve_resource :
      Bytes → Bytes → List Bytes → SubjectType → Exec W (Bytes × List Bytes)
  resolve_resource client_id [] requested subject = grant_from client_id is_standard_scope requested
  resolve_resource client_id (c ∷ cs) requested subject =
      if not (provider.is_valid_resource_indicator_uri (c ∷ cs)) then raise invalid_target else do
        access ← provider.allowed_scopes_for_audience client_id (trim_slashes (c ∷ cs)) subject
        grant_api (trim_slashes (c ∷ cs)) requested subject access

-- the unit separator
abbrev pub separator : ℕ
separator = 31

unfoldable pub consent_scope_key : Bytes → Bytes → Bytes
consent_scope_key audience scope =
    if is_standard_scope scope then scope else audience ++ (separator ∷ scope)

unfoldable pub consent_scope_keys : Bytes → List Bytes → List Bytes
consent_scope_keys audience [] = []
consent_scope_keys audience (s ∷ ss) = consent_scope_key audience s ∷ consent_scope_keys audience ss

unfoldable pub consent_audience_key : Bytes → Bytes
consent_audience_key audience = audience ++ (separator ∷ [])

unfoldable pub consent_keys_for_grant : Bytes → Bytes → List Bytes → List Bytes
consent_keys_for_grant audience [] scopes = consent_scope_keys audience scopes
consent_keys_for_grant audience (c ∷ cs) scopes =
    consent_scope_keys audience scopes ++ (consent_audience_key audience ∷ [])
