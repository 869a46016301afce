-- ===== src/Oidc/Resource/Grants.antt =====
-- No grant exceeds what the identity scopes, the API and the client's access to it allow
-- (`resolveResource` in backend/internal/oidc/api_resource.go).
use pocket_id.Prelude.{
  Bool, true, false, not, ◌&&◌, ◌||◌, List, [], ◌∷◌, ◌++◌, ◌≡◌, ◌≢◌, ◌⊎◌, inl, inr, refl, sym, ap,
  ◌∙◌, subst, arith, All, All-append, Bool-cases, if◌then◌else◌,
}
use pocket_id.Result.{Result, ok, err}
use pocket_id.Exec.Runs.{steps, bind-Steps, unless_raised}
use pocket_id.CallbackUrl.Bytes.{Bytes}
use pocket_id.Oidc.Scopes.{
  has_text, Within, eq_bytes_refl, has_text-append, invalid_target, access_denied,
}
use pocket_id.Oidc.Resource.{
  SubjectType, subject_user, subject_client, Access, Provider, is_standard_scope, trim_slashes,
  collect, is_client_subject, is_empty, grant_from, grant_api, resolve_resource,
}

module _ (has_argument : List Bytes → Bytes → Bool) (grantable : Bytes → Bool) where
  -- what holds of the collected and of the requested scopes holds of the result
  collect-All :
      (P : Bytes → Type 0) (acc ss : List Bytes) (granted : List Bytes)
      → All P acc
      → All P ss
      → collect has_argument grantable acc ss ≡ ok granted
      → All P granted
  unfolding collect
  collect-All P acc [] granted h k e = let same : acc ≡ granted = cc in subst (All P) same h
  collect-All P acc (s ∷ ss) granted h (p, k) e = elim (Bool-cases (grantable s)) [
    | inr off ↦ let e' = rw off at e in cc
    | inl on ↦
        let e' = rw on at e in
        collect-All P (if has_argument acc s then acc else acc ++ (s ∷ [])) ss granted
          (more (has_argument acc s)) k e'
  ]
    where
      more : (b : Bool) → All P (if b then acc else acc ++ (s ∷ []))
      more true = h
      more false = All-append P acc (s ∷ []) h (p, tt)

  collect-grantable :
      (acc ss granted : List Bytes)
      → collect has_argument grantable acc ss ≡ ok granted
      → All (λ s. grantable s ≡ true) ss
  unfolding collect
  collect-grantable acc [] granted e = tt
  collect-grantable acc (s ∷ ss) granted e = elim (Bool-cases (grantable s)) [
    | inr off ↦ let e' = rw off at e in cc
    | inl on ↦ (
      on,
      collect-grantable (if has_argument acc s then acc else acc ++ (s ∷ [])) ss granted
          (rw on at e),
    )
  ]

-- a list lies within any list that it is a tail of, and so within itself
Within-append : (before texts : List Bytes) → Within texts (before ++ texts)
Within-append before [] = tt
Within-append before (t ∷ texts) = (
  rw (has_text-append before (t ∷ texts) t, eq_bytes_refl t) (ground arith),
  subst (Within texts) (shifted before) (Within-append (before ++ (t ∷ [])) texts),
)
  where
    shifted : (xs : List Bytes) → (xs ++ (t ∷ [])) ++ texts ≡ xs ++ (t ∷ texts)
    shifted [] = refl
    shifted (x ∷ xs) = ap (◌∷◌ x) (shifted xs)

pub Within-refl : (texts : List Bytes) → Within texts texts
Within-refl texts = Within-append [] texts

module _ {W : Type 0} (provider : Provider W) where
  -- a grant: without a resource, identity scopes for the client itself; with one, for an API that
  -- exists and that the client may access, identity scopes and the scopes that it is allowed there.
  -- All of them were requested, but where a client that acts as itself requested none.
  pub data Granted (client_id resource : Bytes) (requested : List Bytes) (subject : SubjectType)
      (audience : Bytes) (granted : List Bytes) : Type 0 where
    identity :
        resource ≡ []
        → audience ≡ client_id
        → All (λ s. is_standard_scope s ≡ true) granted
        → All (λ s. is_standard_scope s ≡ true) requested
        → Within granted requested
        → Granted client_id resource requested subject audience granted
    api :
        (access : Access) (v v' : W)
        → resource ≢ []
        → provider.is_valid_resource_indicator_uri resource ≡ true
        → provider.allowed_scopes_for_audience client_id (trim_slashes resource) subject v
          ≡ (ok access, v')
        → access.api_exists ≡ true
        → access.has_access ≡ true
        → audience ≡ trim_slashes resource
        → All (λ s. (is_standard_scope s || has_text access.scopes s) ≡ true) granted
        → All (λ s. (is_standard_scope s || has_text access.scopes s) ≡ true) requested
        → Within granted requested
          ⊎ ((subject ≡ subject_client) × (requested ≡ []) × Within granted access.scopes)
        → Granted client_id resource requested subject audience granted

  -- the result of the loop, with the audience
  data Collected (audience : Bytes) (grantable : Bytes → Bool) (requested : List Bytes) (a : Bytes)
      (granted : List Bytes) : Type 0 where
    collected :
        a ≡ audience
        → All (λ s. grantable s ≡ true) granted
        → All (λ s. grantable s ≡ true) requested
        → Within granted requested
        → Collected audience grantable requested a granted

  grant_from-Collected :
      (audience : Bytes) (grantable : Bytes → Bool) (requested : List Bytes) (w w' : W) (a : Bytes)
      (granted : List Bytes)
      → grant_from provider audience grantable requested w ≡ (ok (a, granted), w')
      → Collected audience grantable requested a granted
  unfolding grant_from
  grant_from-Collected audience grantable requested w w' a granted e =
      go (collect provider.arguments_has grantable [] requested) refl e
    where
      go :
          (r : Result (List Bytes))
          → collect provider.arguments_has grantable [] requested ≡ r
          → ◌≡◌ {A = Result (Bytes × List Bytes) × W}
              (elim r [ ok g ↦ ok (audience, g) | err x ↦ err x ], w)
              (ok (a, granted), w')
          → Collected audience grantable requested a granted
      go (err x) h k = cc
      go (ok g) h k =
          let same : g ≡ granted = cc in
          let to : audience ≡ a = cc in
          let h' : collect provider.arguments_has grantable [] requested ≡ ok granted =
            h ∙ ap ok same in
          let requests =
            collect-grantable provider.arguments_has grantable [] requested granted h' in
          collected (sym to)
            (collect-All provider.arguments_has grantable (λ s. grantable s ≡ true) [] requested
              granted tt requests h')
            requests
            (collect-All provider.arguments_has grantable (λ s. has_text requested s ≡ true) []
              requested granted tt (Within-refl requested) h')

  -- a client that acts as itself and requests no scope is offered all that it is allowed
  chosen : SubjectType → List Bytes → Access → List Bytes
  chosen subject requested access =
      if is_client_subject subject && is_empty requested then access.scopes else requested

  All-chosen :
      (P : Bytes → Type 0) (subject : SubjectType) (requested : List Bytes) (access : Access)
      → All P (chosen subject requested access)
      → All P requested
  unfolding chosen
  All-chosen P subject_client [] access h = tt
  All-chosen P subject_client (s ∷ ss) access h = h
  All-chosen P subject_user requested access h = h

  Within-chosen :
      (subject : SubjectType) (requested granted : List Bytes) (access : Access)
      → Within granted (chosen subject requested access)
      → Within granted requested
        ⊎ ((subject ≡ subject_client) × (requested ≡ []) × Within granted access.scopes)
  unfolding chosen
  Within-chosen subject_client [] granted access h = inr (refl, refl, h)
  Within-chosen subject_client (s ∷ ss) granted access h = inl h
  Within-chosen subject_user requested granted access h = inl h

  grant_api-Granted :
      (client_id resource : Bytes) (requested : List Bytes) (subject : SubjectType)
      (access : Access) (v v' w' : W) (audience : Bytes) (granted : List Bytes)
      → resource ≢ []
      → provider.is_valid_resource_indicator_uri resource ≡ true
      → provider.allowed_scopes_for_audience client_id (trim_slashes resource) subject v
        ≡ (ok access, v')
      → grant_api provider (trim_slashes resource) requested subject access v'
        ≡ (ok (audience, granted), w')
      → Granted client_id resource requested subject audience granted
  unfolding grant_api chosen
  grant_api-Granted client_id resource requested subject access v v' w' audience granted full valid
        called e =
      let (exists, e₁) =
        unless_raised (not access.api_exists) invalid_target _ v' w' (audience, granted) e in
      let (may, e₂) =
        unless_raised (not access.has_access) access_denied _ v' w' (audience, granted) e₁ in
      elim (grant_from-Collected (trim_slashes resource)
        (λ s. is_standard_scope s || has_text access.scopes s) (chosen subject requested access) v'
        w' audience granted e₂) [
          | collected same grants requests within ↦
              api access v v' full valid called (ground (arith)) (ground (arith)) same grants
                (All-chosen (λ s. (is_standard_scope s || has_text access.scopes s) ≡ true) subject
                  requested access requests)
                (Within-chosen subject requested granted access within)
        ]

  pub resolve_resource-Granted :
      (client_id resource : Bytes) (requested : List Bytes) (subject : SubjectType) (w w' : W)
      (audience : Bytes) (granted : List Bytes)
      → resolve_resource provider client_id resource requested subject w
        ≡ (ok (audience, granted), w')
      → Granted client_id resource requested subject audience granted
  unfolding resolve_resource
  resolve_resource-Granted client_id [] requested subject w w' audience granted e =
      elim (grant_from-Collected client_id is_standard_scope requested w w' audience granted e) [
        | collected same grants requests within ↦ identity refl same grants requests within
      ]
  resolve_resource-Granted client_id (c ∷ cs) requested subject w w' audience granted e =
      let (valid, e₁) =
        unless_raised (not (provider.is_valid_resource_indicator_uri (c ∷ cs))) invalid_target _ w
          w' (audience, granted) e in
      elim (bind-Steps _ _ w (audience, granted) w' e₁) [
        | steps access v called rest ↦
            grant_api-Granted client_id (c ∷ cs) requested subject access w v w' audience granted
              (λ h. cc) (ground arith) called rest
      ]
