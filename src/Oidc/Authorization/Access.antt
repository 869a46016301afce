-- ===== src/Oidc/Authorization/Access.antt =====
-- Who may authorize a client, and what a transaction that succeeded did (IsUserGroupAllowedToAuthorize
-- and validateClientPKCERequirement in backend/internal/oidc/authorization_service.go, and tx.go).
use pocket_id.Prelude.{
  String, subst, true, false, List, [], ◌∷◌, ◌≡◌, ◌≢◌, ◌⊎◌, refl, ◌∙◌, ap, arith, Bool-cases, inl,
  inr,
}
use pocket_id.Result.{Result, ok, err}
use pocket_id.Exec.{Exec, rename}
use pocket_id.Exec.Runs.{steps, bind-Steps}
use pocket_id.CallbackUrl.Bytes.{Bytes}
use pocket_id.Oidc.Scopes.{has_text, eq_bytes_refl}
use pocket_id.Oidc.Consent.{
  Client, User, validate_client_pkce_requirement, group_allowed, is_user_group_allowed_to_authorize,
}
use pocket_id.Oidc.Interaction.{Services, closing, with_tx}

-- the client is open to all, or shares a group with the user
pub data Allowed (user : User) (client : Client) : Type 0 where
  unrestricted : client.is_group_restricted ≡ false → Allowed user client
  shared :
      (group : Bytes)
      → has_text client.allowed_user_groups group ≡ true
      → has_text user.user_groups group ≡ true
      → Allowed user client

group_allowed-shared :
    (groups others : List Bytes)
    → group_allowed groups others ≡ true
    → (g : Bytes) × (has_text groups g ≡ true) × (has_text others g ≡ true)
unfolding group_allowed
group_allowed-shared [] others h = cc
group_allowed-shared (g ∷ gs) others h = elim (Bool-cases (has_text others g)) [
  | inl on ↦ (g, rw (eq_bytes_refl g) refl, on)
  | inr off ↦
      let (x, here, there) = group_allowed-shared gs others (ground arith) in
      (x, ground arith, there)
]

pub is_user_group_allowed_to_authorize-Allowed :
    (user : User) (client : Client)
    → is_user_group_allowed_to_authorize user client ≡ true
    → Allowed user client
unfolding is_user_group_allowed_to_authorize
is_user_group_allowed_to_authorize-Allowed user client h =
    elim (Bool-cases client.is_group_restricted) [
      | inr off ↦ unrestricted off
      | inl on ↦
          let (g, a, b) =
            group_allowed-shared client.allowed_user_groups user.user_groups (rw on at h) in
          shared g a b
    ]

pub validate_client_pkce_requirement_lem :
    (client : Client) (challenge : Bytes)
    → validate_client_pkce_requirement client challenge ≡ ok tt
    → (client.pkce_enabled ≡ false) ⊎ (challenge ≢ [])
unfolding validate_client_pkce_requirement
validate_client_pkce_requirement_lem client [] h = elim (Bool-cases client.pkce_enabled) [
  | inl on ↦ let h' = rw on at h in cc
  | inr off ↦ inl off
]
validate_client_pkce_requirement_lem client (c ∷ cs) h = inr (λ e. cc)

module _ {W A : Type 0} where
  pub unwrapped :
      (message : String) (c : Result A × W) (a : A) (v : W)
      → rename message c ≡ (ok a, v)
      → c ≡ (ok a, v)
  unwrapped message (ok b, u) a v h = h
  unwrapped message (err e, u) a v h = cc

module _ {C P W : Type 0} (services : Services C P W) where
  -- a transaction that succeeded began, ran and was committed
  pub with_tx-Ran :
      {A : Type 0} (m : Exec W A) (a : A) (w w' : W)
      → with_tx services m w ≡ (ok a, w')
      → (v : W) × (u : W) × (services.begin_transaction w ≡ (ok tt, v))
        × (m v ≡ (ok a, u))
        × (services.commit_transaction u ≡ (ok tt, w'))
  unfolding with_tx
  with_tx-Ran {A} m a w w' h = elim (bind-Steps _ _ w a w' h) [
    | steps begun v b rest ↦ elim (bind-Steps _ _ v a w' (opened _ rest)) [
      | steps a' u ran rest' ↦ elim (bind-Steps _ _ u a w' rest') [
        | steps committed x c last ↦
            let same : a' ≡ a = cc in
            let same_state : x ≡ w' = cc in
            (
              v,
              u,
              unwrapped "error starting transaction" _ begun v b,
              ran ∙ ap (λ y. (ok y, u)) same,
              subst (λ y. services.commit_transaction u ≡ (ok tt, y)) same_state
                  (unwrapped "error committing transaction" _ committed x c),
            )
      ]
    ]
  ]
    where
      opened : (r : Result A × W) → closing services r ≡ (ok a, w') → r ≡ (ok a, w')
      opened (ok y, u) e = e
      opened (err y, u) e = cc
