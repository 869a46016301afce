-- ===== src/Oidc/Authorization/Resumption.antt =====
-- The interaction that an authorization request resumes (`boundInteractionSession` in
-- backend/internal/oidc/authorization_service.go).
use pocket_id.Prelude.{
  ℕ, ◌-◌, ◌≤◌, ltb, subst, ◌∙◌, if◌then◌else◌, ◌∷◌, true, ◌&&◌, Option, none, some, [], ◌≡◌, ◌≢◌,
  refl, arith, Bool-cases, inl, inr,
}
use pocket_id.Result.{ok}
use pocket_id.Exec.Runs.{steps, bind-Steps}
use pocket_id.CallbackUrl.Bytes.{Bytes, eq_bytes, eq_bytes_iff}
use pocket_id.Oidc.Resource.{is_empty, not_empty}
use pocket_id.Oidc.Consent.{consent_scopes_include}
use pocket_id.Oidc.Interaction.{
  InteractionSession, Services, current_time, get_session, on_found, interaction_session_lifetime,
}
use pocket_id.Oidc.Request.{AuthorizeInput, has_owner, validate_interaction_session_binding}
use pocket_id.Oidc.Authorization.{bound_session, bound_interaction_session}

module _ {C P W : Type 0} (services : Services C P W) where
  pub read_clock :
      (v : W) (t : ℕ) (v₁ : W) → current_time services v ≡ (ok t, v₁) → services.now v ≡ (t, v₁)
  read_clock v t v₁ h =
      let (x, u) = services.now v in
      let same : x ≡ t = ground arith in
      let same_state : u ≡ v₁ = ground arith in rw (same, same_state)

  -- The interaction that the request resumes: none where it names none; else the session with its ID, at
  -- most an hour old, of the same client, and with scopes that include the requested ones.
  pub data Resumed (input : AuthorizeInput) (w : W) : Option InteractionSession → W → Type 0 where
    none_named : input.interaction_id ≡ [] → Resumed input w none w
    bound :
        (s : InteractionSession) (t : ℕ) (v u : W)
        → input.interaction_id ≢ []
        → services.find_session input.interaction_id w ≡ (ok (some s), v)
        → services.now v ≡ (t, u)
        → t - s.created_at ≤ 3600000000000
        → s.client_id ≡ input.client.id
        → consent_scopes_include s.scopes input.requested_scopes ≡ true
        → Resumed input w (some s) u

  validate_interaction_session_binding_lem :
      (s : InteractionSession) (input : AuthorizeInput)
      → validate_interaction_session_binding s input ≡ ok tt
      → (s.client_id ≡ input.client.id)
        × (consent_scopes_include s.scopes input.requested_scopes ≡ true)
  unfolding validate_interaction_session_binding
  validate_interaction_session_binding_lem s input h =
      elim (Bool-cases (eq_bytes s.client_id input.client.id)) [
        | inr other ↦ let h' = rw other at h in cc
        | inl same ↦ elim (Bool-cases (has_owner s.user_id && is_empty input.user_id)) [
          | inl anonymous ↦ let h' = rw (same, anonymous) at h in cc
          | inr owned ↦ elim (Bool-cases (consent_scopes_include s.scopes input.requested_scopes)) [
            | inr more ↦ let h' = rw (same, owned, more) at h in cc
            | inl within ↦ ((eq_bytes_iff s.client_id input.client.id).0 same, within)
          ]
        ]
      ]

  pub bound_interaction_session-Resumed :
      (input : AuthorizeInput) (w v : W) (loaded : Option InteractionSession)
      → bound_interaction_session services input w ≡ (ok loaded, v)
      → Resumed input w loaded v
  unfolding bound_interaction_session get_session
  bound_interaction_session-Resumed input w v loaded h =
      elim (Bool-cases (is_empty input.interaction_id)) [
        | inl blank ↦
            let h' = rw blank at h in
            let same : none ≡ loaded = cc in
            let same_state : w ≡ v = cc in
            rw (← same, ← same_state) (none_named (empty_text input.interaction_id blank))
        | inr named ↦ elim (bind-Steps _ _ w loaded v (rw named at h)) [
          | steps found u getting h₁ ↦ elim (bind-Steps _ _ w found u getting) [
            | steps row x read h₂ ↦
                go (not_empty input.interaction_id named) row found x u read h₂ h₁
          ]
        ]
      ]
    where
      empty_text : (b : Bytes) → is_empty b ≡ true → b ≡ []
      empty_text [] e = refl
      empty_text (c ∷ cs) e = cc

      of_found :
          (s : InteractionSession) (t : ℕ) (found : Option InteractionSession) (x y u : W)
          → input.interaction_id ≢ []
          → services.find_session input.interaction_id w ≡ (ok (some s), x)
          → services.now x ≡ (t, u)
          → found ≡ (if ltb interaction_session_lifetime (t - s.created_at) then none else some s)
          → bound_session services input found u ≡ (ok loaded, v)
          → Resumed input w loaded v
      of_found s t none x y u given read clock is last = cc
      of_found s t (some o) x y u given read clock is last =
          elim (Bool-cases (ltb interaction_session_lifetime (t - s.created_at))) [
            | inl old ↦ let is' = rw old at is in cc
            | inr young ↦
                let is' = rw young at is in
                let same : s ≡ o = cc in
                elim (bind-Steps _ _ u loaded v last) [
                  | steps checked z binding kept ↦
                      let (same_client, within) =
                        validate_interaction_session_binding_lem o input (cc) in
                      let same_loaded : some o ≡ loaded = cc in
                      let same_z : u ≡ z = cc in
                      let same_v : z ≡ v = cc in
                      rw (← same_loaded) (
                        bound o t x v given
                          (subst
                            (λ y. services.find_session input.interaction_id w ≡ (ok (some y), x))
                            same read)
                          (subst (λ y. services.now x ≡ (t, y)) (same_z ∙ same_v) clock)
                          (subst (λ (y : InteractionSession). t - y.created_at ≤ 3600000000000) same
                            (ground arith))
                          same_client within)
                ]
          ]

      go :
          input.interaction_id ≢ []
          → (row found : Option InteractionSession) (x u : W)
          → services.find_session input.interaction_id w ≡ (ok row, x)
          → on_found services row x ≡ (ok found, u)
          → bound_session services input found u ≡ (ok loaded, v)
          → Resumed input w loaded v
      go given none found x u read h₂ h₁ =
          let missing : none ≡ found = cc in let h₁' = rw (← missing) at h₁ in cc
      go given (some s) found x u read h₂ h₁ = elim (bind-Steps _ _ x found u h₂) [
        | steps t y clock kept ↦
            let same_y : y ≡ u = cc in
            of_found s t found x y u given read (rw same_y at (read_clock x t y clock)) (cc) h₁
      ]
