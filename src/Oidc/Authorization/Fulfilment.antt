-- ===== src/Oidc/Authorization/Fulfilment.antt =====
-- What it takes that no step is left (`resolveRequirements` in
-- backend/internal/oidc/authorization_service.go).
use pocket_id.Prelude.{
  ℕ, Bool, true, false, not, ◌&&◌, Option, none, some, List, ◌||◌, [], ◌≡◌, ◌≢◌, refl, arith,
  Bool-cases, inl, inr,
}
use pocket_id.Result.{Result, ok, err}
use pocket_id.Exec.Runs.{steps, bind-Steps, unless_raised}
use pocket_id.CallbackUrl.Bytes.{Bytes, bytes}
use pocket_id.Oidc.Scopes.{has_text, login_required, consent_required_error}
use pocket_id.Oidc.Resource.{
  subject_user, is_empty, not_empty, resolve_resource, consent_keys_for_grant,
}
use pocket_id.Oidc.Consent.{
  new_prompt_values, consent_required, requires_reauthentication_for_max_age, has_authorized_client,
}
use pocket_id.Oidc.Interaction.{InteractionSession, Requirements, any_required, Services}
use pocket_id.Oidc.Steps.{resolve_grant}
use pocket_id.Oidc.Request.{
  AuthorizeInput, has_prompt, derived_requirements, effective_requirements, effective_time, or_time,
}
use pocket_id.Oidc.Authorization.{
  reauthenticated, try_reauthentication, checked_requirements, resolve_requirements,
}

module _ {C P W : Type 0} (services : Services C P W) where
  -- the user need not sign in again, or has just done so; with the time of the sign-in
  pub data Recent (input : AuthorizeInput) (required : Bool) (t : ℕ) (w : W) : ℕ → W → Type 0 where
    not_required : required ≡ false → Recent input required t w t w
    proven :
        (at : ℕ) (w' : W)
        → input.reauthentication_token ≢ []
        → services.consume_reauthentication_token input.reauthentication_token input.user_id w
          ≡ (ok at, w')
        → Recent input required t w at w'

  -- what is required, of the request itself or of the session that it resumes, is met
  pub data Fulfilled (input : AuthorizeInput) (has too_old : Bool) (w : W)
      : Option InteractionSession → ℕ → W → Type 0 where
    of_request :
        (t : ℕ) (w' : W)
        → consent_required has input.client.skip_consent (new_prompt_values input.form_prompt)
          ≡ false
        → has_text (new_prompt_values input.form_prompt) (bytes "select_account") ≡ false
        → Recent input
            (has_text (new_prompt_values input.form_prompt) (bytes "login")
              || (input.client.requires_reauthentication || too_old))
            input.authentication_time
            w
            t
            w'
        → Fulfilled input has too_old w none t w'
    of_session :
        (s : InteractionSession) (t : ℕ) (w' : W)
        → s.authentication_required ≡ false
        → s.account_selection_required ≡ false
        → s.consent_required ≡ false
        → Recent input s.reauthentication_required
            (or_time s.reauthenticated_at input.authentication_time)
            w
            t
            w'
        → Fulfilled input has too_old w (some s) t w'

  -- the requirements as they are resolved, from a state to another, and met
  pub data Met (input : AuthorizeInput) (now : ℕ) (session : Option InteractionSession) (w : W)
      : ℕ → W → Type 0 where
    met :
        (resource audience : Bytes) (scopes : List Bytes) (has too_old : Bool) (t : ℕ) (v u w' : W)
        → input.get_resource ≡ ok resource
        → resolve_resource services.provider input.client.id resource input.requested_scopes
            subject_user w
          ≡ (ok (audience, scopes), v)
        → has_authorized_client services.consents input.client.id input.user_id
            (consent_keys_for_grant audience resource scopes)
            v
          ≡ (ok has, u)
        → requires_reauthentication_for_max_age input.form_max_age input.authentication_time now
          ≡ ok too_old
        → Fulfilled input has too_old u session t w'
        → Met input now session w t w'

  -- what is left of some requirements, none of which is required
  data Cleared (input : AuthorizeInput) (q : Requirements) (t : ℕ) (w : W) : ℕ → W → Type 0 where
    cleared :
        {t' : ℕ} {w' : W}
        → q.consent_required ≡ false
        → q.authentication_required ≡ false
        → q.account_selection_required ≡ false
        → Recent input q.reauthentication_required t w t' w'
        → Cleared input q t w t' w'

  at_most_reauthentication :
      (input : AuthorizeInput) (q r : Requirements) (t t' : ℕ) (v v' : W)
      → (q.reauthentication_required && not (is_empty input.reauthentication_token)) ≡ true
      → (a : Result ℕ × W)
      → services.consume_reauthentication_token input.reauthentication_token input.user_id v ≡ a
      → reauthenticated services q t a ≡ (ok (r, t'), v')
      → any_required r ≡ false
      → Cleared input q t v t' v'
  unfolding any_required
  at_most_reauthentication input q r t t' v v' on (ok at, u) consumed h off =
      let same : at ≡ t' = ground arith in
      let same_state : u ≡ v' = ground arith in
      rw (← same, ← same_state)
        (cleared (ground arith) (ground arith) (ground arith)
          (proven at u (not_empty input.reauthentication_token (ground arith)) consumed))
  at_most_reauthentication input q r t t' v v' on (err e, u) consumed h off =
      let never : true ≡ false = ground arith in cc

  try_reauthentication-Cleared :
      (input : AuthorizeInput) (q r : Requirements) (t t' : ℕ) (v v' : W)
      → try_reauthentication services input q t v ≡ (ok (r, t'), v')
      → any_required r ≡ false
      → Cleared input q t v t' v'
  unfolding try_reauthentication any_required
  try_reauthentication-Cleared input q r t t' v v' h off =
      elim (Bool-cases
        (q.reauthentication_required && not (is_empty input.reauthentication_token))) [
          | inl on ↦ at_most_reauthentication input q r t t' v v' on _ refl (rw on at h) off
          | inr no_token ↦
              let h' = rw no_token at h in
              let same : t ≡ t' = ground arith in
              let same_state : v ≡ v' = ground arith in
              rw (← same, ← same_state)
                (cleared (ground arith) (ground arith) (ground arith) (not_required (ground arith)))
        ]

  Fulfilled-of :
      (input : AuthorizeInput) (has too_old : Bool) (session : Option InteractionSession) (t : ℕ)
      (v v' : W)
      → Cleared input
          (effective_requirements (derived_requirements input has too_old) session)
          (effective_time input.authentication_time session)
          v
          t
          v'
      → Fulfilled input has too_old v session t v'
  unfolding derived_requirements
  Fulfilled-of input has too_old none t v v' (cleared a b c d) = of_request t v' a c d
  Fulfilled-of input has too_old (some s) t v v' (cleared a b c d) = of_session s t v' b c a d

  -- Where `resolveRequirements` leaves no step, every requirement was met, those of the resumed
  -- session in place of the request's own; only a reauthentication may have been proven in between,
  -- by a token of the user that was consumed.
  pub resolve_requirements-Met :
      (input : AuthorizeInput) (now : ℕ) (session : Option InteractionSession) (r : Requirements)
      (t : ℕ) (w w' : W)
      → resolve_requirements services input now session w ≡ (ok (r, t), w')
      → any_required r ≡ false
      → Met input now session w t w'
  unfolding resolve_requirements checked_requirements resolve_grant
  resolve_requirements-Met input now session r t w w' h off = elim (bind-Steps _ _ w (r, t) w' h) [
    | steps resource v got h₁ ↦ elim (bind-Steps _ _ v (r, t) w' h₁) [
      | steps (audience, scopes, keys) u resolved h₂ ↦
          elim (bind-Steps _ _ v (audience, scopes, keys) u resolved) [
            | steps (a, ss) z resolving kept ↦ elim (bind-Steps _ _ u (r, t) w' h₂) [
              | steps has x asked h₃ ↦ elim (bind-Steps _ _ x (r, t) w' h₃) [
                | steps too_old y aged h₄ ↦
                    let q =
                      effective_requirements (derived_requirements input has too_old) session in
                    let (no_consent, h₅) =
                      unless_raised (has_prompt input (bytes "none") && q.consent_required)
                        consent_required_error _ y w' (r, t) h₄ in
                    let (no_login, h₆) =
                      unless_raised (has_prompt input (bytes "none") && q.reauthentication_required)
                        login_required _ y w' (r, t) h₅ in
                    let clear =
                      try_reauthentication-Cleared input q r
                        (effective_time input.authentication_time session) t y w' h₆ off in
                    let same_v : w ≡ v = cc in
                    let same_z : z ≡ u = cc in
                    let same_y : x ≡ y = cc in
                    let same_keys : consent_keys_for_grant a resource ss ≡ keys = cc in
                    met resource a ss has too_old t z x w' (cc) (rw (same_v) resolving)
                      (rw (same_z, same_keys) asked) (cc)
                      (Fulfilled-of input has too_old session t x w' (rw (same_y) clear))
              ]
            ]
          ]
    ]
  ]
