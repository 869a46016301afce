-- ===== src/Oidc/Authorization/Guarantees.antt =====
-- What a granted authorization request tells (`authorize` in
-- backend/internal/oidc/authorization_service.go).
use pocket_id.Prelude.{
  ℕ, if◌then◌else◌, Bool, true, false, not, ◌&&◌, Option, none, some, List, [], ◌≡◌, ◌≢◌, ◌⊎◌, refl,
  arith, Bool-cases, inl, inr,
}
use pocket_id.Result.{Result, ok, err}
use pocket_id.Exec.{Exec, pure, ◌>>=◌}
use pocket_id.Exec.Runs.{steps, bind-Steps, unless_raised}
use pocket_id.CallbackUrl.Bytes.{Bytes, bytes}
use pocket_id.Oidc.Scopes.{login_required}
use pocket_id.Oidc.Resource.{subject_user, is_empty, not_empty, resolve_resource}
use pocket_id.Oidc.Steps.{resolve_grant}
use pocket_id.Oidc.Consent.{Client}
use pocket_id.Oidc.Interaction.{InteractionSession, Services, par_required, with_tx}
use pocket_id.Oidc.Request.{
  AuthorizeInput, Session, Grant, AuthorizationResult, requires_interaction, granted, has_prompt,
}
use pocket_id.Oidc.Authorization.{
  is_none, collapsed, check_grant, authorize_authenticated, authorize_anonymous, flag_pkce,
  with_claims, authorize_signed_in, authorize,
}
use pocket_id.Oidc.Authorization.Granting.{UserGranted, authorize_authenticated-UserGranted}
use pocket_id.Oidc.Authorization.Access.{validate_client_pkce_requirement_lem, with_tx-Ran}
use pocket_id.Oidc.Authorization.Resumption.{Resumed, read_clock, bound_interaction_session-Resumed}

module _ {C P W : Type 0} (services : Services C P W) where
  module _ (apply_id_token_claims : Session → List Bytes → Client → Exec W Session) where
    -- What stands behind a grant, call after call. PKCE and a pushed request, where the client demands
    -- them; an interaction that is resumed stands for the pushed request. A request that
    -- `resolveResource` accepts before the sign-in is looked at. By the clock read after that, in one
    -- transaction that is committed, a user who exists and is allowed, every requirement met, the
    -- interaction used up and the consent recorded; and then the claims of the session.
    pub data Authorized (input : AuthorizeInput) (g : Grant) (w w' : W) : Type 0 where
      authorized :
          (loaded : Option InteractionSession) (resource : Bytes) (early : Bytes × List Bytes)
          (now : ℕ) (before : Grant) (w₁ w₂ w₃ w₄ w₅ w₆ : W)
          → (input.client.pkce_enabled ≡ false) ⊎ (input.form_code_challenge ≢ [])
          → Resumed services input w loaded w₁
          → (input.client.requires_pushed_authorization_requests ≡ false)
            ⊎ ((input.has_pushed_authorization_request ≡ true) ⊎ (loaded ≢ none))
          → input.get_resource ≡ ok resource
          → resolve_resource services.provider input.client.id resource input.requested_scopes
              subject_user w₁
            ≡ (ok early, w₂)
          → input.user_id ≢ []
          → services.now w₂ ≡ (now, w₃)
          → services.begin_transaction w₃ ≡ (ok tt, w₄)
          → UserGranted services input now loaded before w₄ w₅
          → services.commit_transaction (
              if not (is_empty input.form_code_challenge)
                && (not input.client.pkce_enabled && not input.client.pkce_supported)
              then services.flag_pkce_supported input.client.id w₅
              else w₅)
            ≡ (ok tt, w₆)
          → apply_id_token_claims before.session before.scopes input.client w₆ ≡ (ok g.session, w')
          → g.audience ≡ before.audience
          → g.scopes ≡ before.scopes
          → Authorized input g w w'

    data SignedIn (input : AuthorizeInput) (loaded : Option InteractionSession) (g : Grant)
        (w w' : W) : Type 0 where
      signed_in :
          (now : ℕ) (before : Grant) (w₃ w₄ w₅ w₆ : W)
          → services.now w ≡ (now, w₃)
          → services.begin_transaction w₃ ≡ (ok tt, w₄)
          → UserGranted services input now loaded before w₄ w₅
          → services.commit_transaction (
              if not (is_empty input.form_code_challenge)
                && (not input.client.pkce_enabled && not input.client.pkce_supported)
              then services.flag_pkce_supported input.client.id w₅
              else w₅)
            ≡ (ok tt, w₆)
          → apply_id_token_claims before.session before.scopes input.client w₆ ≡ (ok g.session, w')
          → g.audience ≡ before.audience
          → g.scopes ≡ before.scopes
          → SignedIn input loaded g w w'

    authorize_signed_in-SignedIn :
        (input : AuthorizeInput) (loaded : Option InteractionSession) (g : Grant) (w w' : W)
        → authorize_signed_in services apply_id_token_claims input loaded w ≡ (ok (granted g), w')
        → SignedIn input loaded g w w'
    unfolding authorize_signed_in with_claims
    authorize_signed_in-SignedIn input loaded g w w' h = elim (bind-Steps _ _ w (granted g) w' h) [
      | steps now v clock rest ↦ elim (bind-Steps _ _ v (granted g) w' rest) [
        | steps result u inside last ↦
            go now result v u (read_clock services w now v clock) inside last
      ]
    ]
      where
        go :
            (now : ℕ) (result : AuthorizationResult) (v u : W)
            → services.now w ≡ (now, v)
            → with_tx services
                (authorize_authenticated services input now loaded >>= λ r.
                  flag_pkce services input >>= λ _. pure r)
                v
              ≡ (ok result, u)
            → with_claims services apply_id_token_claims input result u ≡ (ok (granted g), w')
            → SignedIn input loaded g w w'
        go now (requires_interaction id) v u clock inside last = cc
        go now (granted before) v u clock inside last =
            let (a, b, begun, ran, committed) =
              with_tx-Ran services _ (granted before) v u inside in
            elim (bind-Steps _ _ a (granted before) b ran) [
              | steps r c decided rest ↦ elim (bind-Steps _ _ c (granted before) b rest) [
                | steps flagged d flag last' ↦ elim (bind-Steps _ _ u (granted g) w' last) [
                  | steps session e claims done ↦
                      let same : r ≡ granted before = cc in
                      let session' : session ≡ g.session = ground arith in
                      let same_e : e ≡ w' = cc in
                      let same_d : d ≡ b = cc in
                      let same_flag : (if not (is_empty input.form_code_challenge)
                              && (not input.client.pkce_enabled && not input.client.pkce_supported)
                            then services.flag_pkce_supported input.client.id c
                            else c)
                          ≡ d =
                        cc in
                      signed_in now before v a c u clock begun
                        (authorize_authenticated-UserGranted services input now loaded before a c
                          (rw same at decided))
                        (rw (same_flag, same_d) committed) (rw (session', same_e) at claims)
                        (ground arith) (ground arith)
                ]
              ]
            ]

    pushed :
        (required has resumed : Bool)
        → (required && (not has && resumed)) ≡ false
        → (required ≡ false) ⊎ ((has ≡ true) ⊎ (resumed ≡ false))
    pushed false has resumed h = inl refl
    pushed true true resumed h = inr (inl refl)
    pushed true false resumed h = inr (inr h)

    not_anonymous :
        (input : AuthorizeInput) (g : Grant) (w w' : W)
        → authorize_anonymous services input w ≢ (ok (granted g), w')
    unfolding authorize_anonymous
    not_anonymous input g w w' h =
        let (prompted, h') =
          unless_raised (has_prompt input (bytes "none")) login_required _ w w' (granted g) h in
        elim (bind-Steps _ _ w (granted g) w' h') [ steps created v made last ↦ cc ]

    some_session : (o : Option InteractionSession) → is_none o ≡ false → o ≢ none
    some_session none h e = cc
    some_session (some s) h e = cc

    resumed_instead :
        {A : Type 0} (o : Option InteractionSession) → A ⊎ ((is_none o ≡ false)) → A ⊎ (o ≢ none)
    resumed_instead o (inl a) = inl a
    resumed_instead o (inr h) = inr (some_session o h)

    demanded :
        {A B : Type 0} (o : Option InteractionSession)
        → A ⊎ (B ⊎ (is_none o ≡ false))
        → A ⊎ (B ⊎ (o ≢ none))
    demanded o (inl a) = inl a
    demanded o (inr h) = inr (resumed_instead o h)

    collapsed_ok :
        {A : Type 0} (resource : Bytes) (c : Result A × W) (a : A) (v : W)
        → collapsed services resource c ≡ (ok a, v)
        → c ≡ (ok a, v)
    collapsed_ok resource (ok b, u) a v h = h
    collapsed_ok resource (err e, u) a v h = cc

    early_check :
        (input : AuthorizeInput) (resource : Bytes) (c : Bytes × List Bytes × List Bytes) (v u : W)
        → check_grant services input resource v ≡ (ok c, u)
        → (early : Bytes × List Bytes) × (resolve_resource services.provider input.client.id
              resource input.requested_scopes subject_user v
            ≡ (ok early, u))
    unfolding check_grant resolve_grant
    early_check input resource c v u h =
        elim (bind-Steps _ _ v c u (collapsed_ok resource _ c u h)) [
          | steps (a, ss) z resolving kept ↦
              let same : z ≡ u = cc in ((a, ss), rw (same) at resolving)
        ]

    of_parts :
        (input : AuthorizeInput) (g : Grant) (loaded : Option InteractionSession) (resource : Bytes)
        (early : Bytes × List Bytes) (w w₁ w₂ w' : W)
        → (input.client.pkce_enabled ≡ false) ⊎ (input.form_code_challenge ≢ [])
        → Resumed services input w loaded w₁
        → (input.client.requires_pushed_authorization_requests ≡ false)
          ⊎ ((input.has_pushed_authorization_request ≡ true) ⊎ (loaded ≢ none))
        → input.get_resource ≡ ok resource
        → resolve_resource services.provider input.client.id resource input.requested_scopes
            subject_user w₁
          ≡ (ok early, w₂)
        → input.user_id ≢ []
        → SignedIn input loaded g w₂ w'
        → Authorized input g w w'
    of_parts input g loaded resource early w w₁ w₂ w' pkce resumed par got resolving somebody
          (signed_in now before w₃ w₄ w₅ w₆ clock begun given committed claims a s) =
        authorized loaded resource early now before w₁ w₂ w₃ w₄ w₅ w₆ pkce resumed par got resolving
          somebody clock begun given committed claims a s

    -- A request that `authorize` grants: PKCE and a pushed request as the client demands them, or a resumed
    -- interaction that is bound to the request and not over; and then by the clock, in one transaction,
    -- an allowed user, every requirement met, the interaction used up, and the scopes granted and
    -- consented to, for the session that is returned; each call on the state that the one before left.
    pub authorize-Authorized :
        (input : AuthorizeInput) (g : Grant) (w w' : W)
        → authorize services apply_id_token_claims input w ≡ (ok (granted g), w')
        → Authorized input g w w'
    unfolding authorize
    authorize-Authorized input g w w' h = elim (bind-Steps _ _ w (granted g) w' h) [
      | steps checked v pkce h₁ ↦ elim (bind-Steps _ _ v (granted g) w' h₁) [
        | steps loaded u binding h₂ ↦
            let (par, h₃) =
              unless_raised
                (input.client.requires_pushed_authorization_requests
                  && (not input.has_pushed_authorization_request && is_none loaded))
                par_required _ u w' (granted g) h₂ in
            elim (bind-Steps _ _ u (granted g) w' h₃) [
              | steps resource x named h₄ ↦ elim (bind-Steps _ _ x (granted g) w' h₄) [
                | steps resolved y early h₅ ↦ elim (Bool-cases (is_empty input.user_id)) [
                  | inl nobody ↦ absurd (not_anonymous input g y w' (rw nobody at h₅))
                  | inr somebody ↦
                      let same_v : w ≡ v = cc in
                      let same_x : u ≡ x = cc in
                      let (found, resolving) = early_check input resource resolved x y early in
                      of_parts input g loaded resource found w u y w'
                        (validate_client_pkce_requirement_lem input.client input.form_code_challenge
                          (cc))
                        (rw (same_v)
                          (bound_interaction_session-Resumed services input v u loaded binding))
                        (demanded loaded (
                          pushed input.client.requires_pushed_authorization_requests
                            input.has_pushed_authorization_request (is_none loaded) par))
                        (cc) (rw (same_x) resolving) (not_empty input.user_id somebody)
                        (authorize_signed_in-SignedIn input loaded g y w' (rw somebody at h₅))
                ]
              ]
            ]
      ]
    ]
