-- ===== src/Api/Applied.antt =====
-- The grants that a client is given on an API (`SetAPIClientAccess` in
-- backend/internal/api/service.go).
use pocket_id.Prelude.{
  Bool, true, false, not, Option, none, some, ◌++◌, map, ◌&&◌, ◌||◌, List, [], ◌∷◌, ◌≡◌, refl, ◌∙◌,
  ap, subst, arith, Bool-cases, inl, inr, if◌then◌else◌,
}
use pocket_id.Result.{Result, ok, err}
use pocket_id.Exec.{Exec, pure}
use pocket_id.Exec.Runs.{steps, bind-Steps}
use pocket_id.CallbackUrl.Bytes.{Bytes, eq_bytes, eq_bytes_iff}
use pocket_id.Oidc.Scopes.{has_text}
use pocket_id.Oidc.Resource.{SubjectType, subject_user, subject_client, is_empty}
use pocket_id.Api.{
  Api, ApiClientGrant, ApiStore, intersect_ids, collect_ids, applied_grant, get_api, found_api,
  found_client, load_oidc_client, delete_api_client_grants, insert_client_grants, in_transaction,
  set_access_inside, set_api_client_access,
}

has_text-intersect_ids :
    (ids requested : List Bytes) (t : Bytes)
    → has_text (intersect_ids ids requested) t ≡ (has_text ids t && has_text requested t)
unfolding intersect_ids
has_text-intersect_ids [] requested t = refl
has_text-intersect_ids (id ∷ ids) requested t = elim (Bool-cases (eq_bytes id t)) [
  | inl same ↦
      let same' : id ≡ t = (eq_bytes_iff id t).0 same in
      ground (arith, has_text-intersect_ids ids requested t)
  | inr other ↦ ground (arith, has_text-intersect_ids ids requested t)
]

module _ {W : Type 0} (store : ApiStore W) where
  -- a call that is left out where there is nothing to write
  pub data Unless (nothing : Bool) (m : Exec W (Unit {0})) (v : W) : W → Type 0 where
    left_out : nothing ≡ true → Unless nothing m v v
    called : (u : W) → nothing ≡ false → m v ≡ (ok tt, u) → Unless nothing m v u

  -- the grants of a client on an API with permissions are deleted, and those of a grant inserted: rows on
  -- the API for a user and for the client itself, and a row for each permission of either
  pub data Replaced (api_id : Bytes) (ids : List Bytes) (client_id : Bytes) (g : ApiClientGrant)
      (w : W) : W → Type 0 where
    replaced :
        (v₁ v₂ v₃ v₄ : W)
        → store.delete_api_grants client_id api_id w ≡ (ok tt, v₁)
        → Unless (is_empty ids) (store.delete_permission_grants client_id ids) v₁ v₂
        → Unless
            (not (g.user_delegated_access || g.client_access))
            (store.insert_api_grants client_id (
              (if g.user_delegated_access then (api_id, subject_user) ∷ [] else [])
              ++ (if g.client_access then (api_id, subject_client) ∷ [] else [])))
            v₂
            v₃
        → Unless
            (is_empty g.user_delegated_permission_ids && is_empty g.client_permission_ids)
            (store.insert_permission_grants client_id (
              map (λ id. (id, subject_user)) g.user_delegated_permission_ids
              ++ map (λ id. (id, subject_client)) g.client_permission_ids))
            v₃
            v₄
        → Replaced api_id ids client_id g w v₄

  -- what is applied, for an API that exists and a client that exists: of the requested permissions those
  -- of the API, and for the client itself nothing if it is public; a permission brings access with it
  pub data Applied (api_id client_id : Bytes) (grant applied : ApiClientGrant) (w : W)
      : W → Type 0 where
    applied_to :
        (api : Api) (is_public : Bool) (v₁ v₂ v₃ v₄ : W)
        → store.find_api api_id (store.begin_transaction w) ≡ (ok (some api), v₁)
        → store.find_client client_id v₁ ≡ (ok (some is_public), v₂)
        → Replaced api.id (map (λ p. p.id) api.permissions) client_id applied v₂ v₃
        → store.commit_transaction v₃ ≡ (ok tt, v₄)
        → ((t : Bytes)
            → has_text applied.user_delegated_permission_ids t ≡ (
                has_text (map (λ p. p.id) api.permissions) t
                && has_text grant.user_delegated_permission_ids t))
        → ((t : Bytes)
            → has_text applied.client_permission_ids t ≡ (
                not is_public
                && (has_text (map (λ p. p.id) api.permissions) t
                    && has_text grant.client_permission_ids t)))
        → applied.user_delegated_access
          ≡ (grant.user_delegated_access || not (is_empty applied.user_delegated_permission_ids))
        → applied.client_access
          ≡ (not is_public && (grant.client_access || not (is_empty applied.client_permission_ids)))
        → Applied api_id client_id grant applied w (store.rollback v₄)

  Unless-of :
      (nothing : Bool) (m : Exec W (Unit {0})) (v u : W)
      → (if nothing then pure tt else m) v ≡ (ok tt, u)
      → Unless nothing m v u
  Unless-of true m v u h =
      let same : v ≡ u = ground arith in subst (Unless true m v) same (left_out refl)
  Unless-of false m v u h = called u refl h

  no_rows :
      (a b : Bool) (x y : Bytes × SubjectType)
      → is_empty ((if a then x ∷ [] else []) ++ (if b then y ∷ [] else [])) ≡ not (a || b)
  no_rows true b x y = refl
  no_rows false true x y = refl
  no_rows false false x y = refl

  no_permissions :
      (xs ys : List Bytes)
      → is_empty {A = Bytes × SubjectType}
          (map (λ id. (id, subject_user)) xs ++ map (λ id. (id, subject_client)) ys)
        ≡ (is_empty xs && is_empty ys)
  no_permissions [] [] = refl
  no_permissions [] (y ∷ ys) = refl
  no_permissions (x ∷ xs) ys = refl

  replacing :
      (api_id client_id : Bytes) (ids : List Bytes) (g : ApiClientGrant) (w v u : W)
      → delete_api_client_grants store api_id ids client_id w ≡ (ok tt, v)
      → insert_client_grants store api_id client_id g v ≡ (ok tt, u)
      → Replaced api_id ids client_id g w u
  unfolding delete_api_client_grants insert_client_grants
  replacing api_id client_id ids g w v u deleted inserted = elim (bind-Steps _ _ w tt v deleted) [
    | steps a v₁ apis rest ↦ elim (bind-Steps _ _ v tt u inserted) [
      | steps b v₃ rows last ↦
          replaced v₁ v v₃ u apis (Unless-of (is_empty ids) _ v₁ v rest)
            (subst
              (λ x.
                Unless x
                  (store.insert_api_grants client_id (
                    (if g.user_delegated_access then (api_id, subject_user) ∷ [] else [])
                    ++ (if g.client_access then (api_id, subject_client) ∷ [] else [])))
                  v v₃)
              (no_rows g.user_delegated_access g.client_access (api_id, subject_user)
                (api_id, subject_client))
              (Unless-of _ _ v v₃ rows))
            (subst
              (λ x.
                Unless x
                  (store.insert_permission_grants client_id (
                    map (λ id. (id, subject_user)) g.user_delegated_permission_ids
                    ++ map (λ id. (id, subject_client)) g.client_permission_ids))
                  v₃ u)
              (no_permissions g.user_delegated_permission_ids g.client_permission_ids)
              (Unless-of _ _ v₃ u last))
    ]
  ]

  got_api :
      (id : Bytes) (api : Api) (v u : W)
      → get_api store id v ≡ (ok api, u)
      → store.find_api id v ≡ (ok (some api), u)
  unfolding get_api
  got_api id api v u h = elim (bind-Steps _ _ v api u h) [
    | steps found x read last ↦ go found x read last
  ]
    where
      go :
          (found : Option Api) (x : W)
          → store.find_api id v ≡ (ok found, x)
          → found_api store found x ≡ (ok api, u)
          → store.find_api id v ≡ (ok (some api), u)
      go none x read last = cc
      go (some a) x read last =
          let same : a ≡ api = ground arith in
          let same_state : x ≡ u = ground arith in rw (← same, ← same_state) read

  loaded_client :
      (id : Bytes) (is_public : Bool) (v u : W)
      → load_oidc_client store id v ≡ (ok is_public, u)
      → store.find_client id v ≡ (ok (some is_public), u)
  unfolding load_oidc_client
  loaded_client id is_public v u h = elim (bind-Steps _ _ v is_public u h) [
    | steps found x read last ↦ go found x read last
  ]
    where
      go :
          (found : Option Bool) (x : W)
          → store.find_client id v ≡ (ok found, x)
          → found_client store found x ≡ (ok is_public, u)
          → store.find_client id v ≡ (ok (some is_public), u)
      go none x read last = cc
      go (some a) x read last =
          let same : a ≡ is_public = ground arith in
          let same_state : x ≡ u = ground arith in rw (← same, ← same_state) read

  client_ids_lem :
      (ids requested : List Bytes) (is_public : Bool) (t : Bytes)
      → has_text (if is_public then [] else intersect_ids ids requested) t
        ≡ (not is_public && (has_text ids t && has_text requested t))
  client_ids_lem ids requested true t = refl
  client_ids_lem ids requested false t = has_text-intersect_ids ids requested t

  client_access_lem :
      (ids : List Bytes) (is_public access : Bool)
      → ((not is_public && access) || not (is_empty (if is_public then [] else ids)))
        ≡ (not is_public && (access || not (is_empty (if is_public then [] else ids))))
  client_access_lem ids true access = refl
  client_access_lem ids false access = refl

  -- Where `SetAPIClientAccess` succeeds, the grants of the client on the API and on its permissions are
  -- deleted, those that it returns are inserted under their subjects, and this is committed: of the requested permissions those of the API, for the client itself nothing if it is
  -- public, and access where it was requested or a permission was granted.
  pub set_api_client_access-Applied :
      (api_id client_id : Bytes) (grant applied : ApiClientGrant) (w w' : W)
      → set_api_client_access store api_id client_id grant w ≡ (ok applied, w')
      → Applied api_id client_id grant applied w w'
  unfolding collect_ids set_api_client_access in_transaction set_access_inside applied_grant
  set_api_client_access-Applied api_id client_id grant applied w w' h =
      inside (set_access_inside store api_id client_id grant (store.begin_transaction w)) refl h
    where
      run :
          (z : W)
          → set_access_inside store api_id client_id grant (store.begin_transaction w)
            ≡ (ok applied, z)
          → Applied api_id client_id grant applied w (store.rollback z)
      run z e = elim (bind-Steps _ _ (store.begin_transaction w) applied z e) [
        | steps api v₁ got h₁ ↦ elim (bind-Steps _ _ v₁ applied z h₁) [
          | steps is_public v₂ loaded h₂ ↦ elim (bind-Steps _ _ v₂ applied z h₂) [
            | steps d v₃ deleted h₃ ↦ elim (bind-Steps _ _ v₃ applied z h₃) [
              | steps i v₄ inserted h₄ ↦ elim (bind-Steps _ _ v₄ applied z h₄) [
                | steps c v₅ committed last ↦
                    let same : applied_grant (collect_ids api.permissions) is_public grant
                        ≡ applied =
                      cc in
                    let same_state : v₅ ≡ z = cc in
                    subst (λ g. Applied api_id client_id grant g w (store.rollback z)) same
                      (subst
                        (λ x.
                          Applied api_id client_id grant
                            (applied_grant (collect_ids api.permissions) is_public grant) w
                            (store.rollback x))
                        same_state
                        (applied_to api is_public v₁ v₂ v₄ v₅ (got_api api_id api _ v₁ got)
                          (loaded_client client_id is_public v₁ v₂ loaded)
                          (replacing api.id client_id (collect_ids api.permissions)
                            (applied_grant (collect_ids api.permissions) is_public grant) v₂ v₃ v₄
                            deleted inserted)
                          committed
                          (has_text-intersect_ids (collect_ids api.permissions)
                            grant.user_delegated_permission_ids)
                          (client_ids_lem (collect_ids api.permissions) grant.client_permission_ids
                            is_public)
                          refl
                          (client_access_lem
                            (intersect_ids (collect_ids api.permissions)
                              grant.client_permission_ids)
                            is_public grant.client_access)))
              ]
            ]
          ]
        ]
      ]

      inside :
          (r : Result ApiClientGrant × W)
          → set_access_inside store api_id client_id grant (store.begin_transaction w) ≡ r
          → ◌≡◌ {A = Result ApiClientGrant × W} (r.0, store.rollback r.1) (ok applied, w')
          → Applied api_id client_id grant applied w w'
      inside (ok a, z) e k =
          let same : a ≡ applied = cc in
          let same_state : store.rollback z ≡ w' = cc in
          subst (Applied api_id client_id grant applied w) same_state
            (run z (e ∙ ap (λ x. (ok x, z)) same))
      inside (err x, z) e k = cc
