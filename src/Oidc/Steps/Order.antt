-- ===== src/Oidc/Steps/Order.antt =====
-- The steps of an interaction are completed in their order, and come to an end
-- (`completeInteractionStep` in backend/internal/oidc/authorization_service.go).
use pocket_id.Prelude.{
  ℕ, ◌<◌, false, Option, none, some, List, ◌≡◌, arith, Bool-cases, inl, inr, if◌then◌else◌,
}
use pocket_id.Result.{Result, ok, err}
use pocket_id.Exec.Runs.{steps, bind-Steps, unless_raised}
use pocket_id.CallbackUrl.Bytes.{Bytes}
use pocket_id.Oidc.Scopes.{login_required}
use pocket_id.Oidc.Resource.{is_empty}
use pocket_id.Oidc.Consent.{narrow_approved_scopes}
use pocket_id.Oidc.Interaction.{
  Step, authenticate, select_account, reauthenticate, consent, other, InteractionSession,
  RequestMeta, Services, required_interaction_steps, is_user, bind_interaction_session_user,
  narrow_interaction_scopes, lift, rewritten, missing_reauthentication_token,
}
use pocket_id.Oidc.Steps.{
  StepInput, first_step, switch_interaction_session_user, populate_post_authentication_requirements,
  complete_reauthentication_step, complete_consent_step, apply_interaction_step,
}

-- the place of the first step that is required, 4 if none is
abbrev pub position : InteractionSession → ℕ
position s =
    if s.authentication_required
    then 0
    else if s.account_selection_required
    then 1
    else if s.reauthentication_required
    then 2
    else if s.consent_required
    then 3
    else 4

-- the flags of a session before its last step, and who is bound to it
data Kept (s s' : InteractionSession) (user_id : Bytes) : Type 0 where
  kept :
      s'.authentication_required ≡ s.authentication_required
      → s'.account_selection_required ≡ s.account_selection_required
      → s'.reauthentication_required ≡ s.reauthentication_required
      → s'.consent_required ≡ s.consent_required
      → s'.user_id ≡ some user_id
      → s'.id ≡ s.id
      → Kept s s' user_id

bind-Kept :
    (s s' : InteractionSession) (user_id : Bytes)
    → bind_interaction_session_user s user_id ≡ ok s'
    → Kept s s' user_id
unfolding bind_interaction_session_user
bind-Kept s s' user_id h = elim (Bool-cases (is_empty user_id)) [
  | inl on ↦ let h' = rw on at h in cc
  | inr off ↦ elim (Bool-cases (is_user s.user_id user_id)) [
    | inr strange ↦ let h' = rw (off, strange) at h in cc
    | inl own ↦
        let h' = rw (off, own) at h in
        kept (ground arith) (ground arith) (ground arith) (ground arith) (ground arith)
          (ground arith)
  ]
]

narrow-Kept :
    (s s' : InteractionSession) (approved : Option (List Bytes)) (user_id : Bytes)
    → s.user_id ≡ some user_id
    → narrow_interaction_scopes s approved ≡ ok s'
    → Kept s s' user_id
unfolding narrow_interaction_scopes
narrow-Kept s s' none user_id b h =
    kept (ground arith) (ground arith) (ground arith) (ground arith) (ground arith) (ground arith)
narrow-Kept s s' (some approved) user_id b h =
    go (narrow_approved_scopes s.scopes (some approved)) h
  where
    go : (r : Result (List Bytes)) → rewritten s r ≡ ok s' → Kept s s' user_id
    go (err e) k = cc
    go (ok narrowed) k =
        kept (ground arith) (ground arith) (ground arith) (ground arith) (ground arith)
          (ground arith)

module _ {W A : Type 0} where
  lifted : (r : Result A) (a : A) (w w' : W) → lift r w ≡ (ok a, w') → r ≡ ok a
  lifted r a w w' h = cc

module _ {C P W : Type 0} (services : Services C P W) where
  switch_lem :
      (s s' : InteractionSession) (user_id : Bytes) (t : ℕ) (w w' : W)
      → switch_interaction_session_user services s user_id t w ≡ (ok s', w')
      → (s'.authentication_required ≡ false)
        × (s'.account_selection_required ≡ s.account_selection_required)
        × (s'.user_id ≡ some user_id)
        × (s'.id ≡ s.id)
  unfolding switch_interaction_session_user
  switch_lem s s' user_id t w w' h =
      let (full, h') = unless_raised (is_empty user_id) login_required _ w w' s' h in
      elim (bind-Steps _ _ w s' w' h') [
        | steps r v needed last ↦ (ground arith, ground arith, ground arith, ground arith)
      ]

  populate_lem :
      (s s' : InteractionSession) (user_id : Bytes) (t : ℕ) (w w' : W)
      → populate_post_authentication_requirements services user_id s t w ≡ (ok s', w')
      → (s'.authentication_required ≡ s.authentication_required)
        × (s'.user_id ≡ s.user_id)
        × (s'.id ≡ s.id)
  unfolding populate_post_authentication_requirements
  populate_lem s s' user_id t w w' h =
      let (full, h') = unless_raised (is_empty user_id) _ _ w w' s' h in
      elim (bind-Steps _ _ w s' w' h') [
        | steps r v needed last ↦ (ground arith, ground arith, ground arith)
      ]

  reauthentication_lem :
      (s s' : InteractionSession) (user_id token : Bytes) (w w' : W)
      → complete_reauthentication_step services s user_id token w ≡ (ok s', w')
      → (s'.authentication_required ≡ s.authentication_required)
        × (s'.account_selection_required ≡ s.account_selection_required)
        × (s'.reauthentication_required ≡ false)
        × (s'.user_id ≡ some user_id)
        × (s'.id ≡ s.id)
  unfolding complete_reauthentication_step
  reauthentication_lem s s' user_id token w w' h = elim (bind-Steps _ _ w s' w' h) [
    | steps bound v bind rest ↦
        let (full, rest') =
          unless_raised (is_empty token) missing_reauthentication_token _ v w' s' rest in
        elim (bind-Steps _ _ v s' w' rest') [
          | steps at u consumed last ↦ elim (bind-Kept s bound user_id (lifted _ bound w v bind)) [
            | kept a b c d e i ↦
                (ground arith, ground arith, ground arith, ground arith, ground arith)
          ]
        ]
  ]

  consent_lem :
      (s s' : InteractionSession) (user_id : Bytes) (approved : Option (List Bytes))
      (meta : RequestMeta) (w w' : W)
      → complete_consent_step services s user_id approved meta w ≡ (ok s', w')
      → (s'.authentication_required ≡ s.authentication_required)
        × (s'.account_selection_required ≡ s.account_selection_required)
        × (s'.reauthentication_required ≡ s.reauthentication_required)
        × (s'.consent_required ≡ false)
        × (s'.user_id ≡ some user_id)
        × (s'.id ≡ s.id)
  unfolding complete_consent_step
  consent_lem s s' user_id approved meta w w' h = elim (bind-Steps _ _ w s' w' h) [
    | steps bound v bind rest ↦ elim (bind-Steps _ _ v s' w' rest) [
      | steps narrowed u narrow rest' ↦ elim (bind-Steps _ _ u s' w' rest') [
        | steps (audience, granted, keys) x resolved rest'' ↦ elim (bind-Steps _ _ x s' w' rest'') [
          | steps known y recorded rest₃ ↦ elim (bind-Steps _ _ y s' w' rest₃) [
            | steps done z audit last ↦
                flags (bind-Kept s bound user_id (lifted _ bound w v bind)) narrowed
                  (lifted _ narrowed v u narrow) (cc)
          ]
        ]
      ]
    ]
  ]
    where
      close :
          (bound narrowed : InteractionSession)
          → Kept s bound user_id
          → Kept bound narrowed user_id
          → record narrowed { consent_required = false } ≡ s'
          → (s'.authentication_required ≡ s.authentication_required)
            × (s'.account_selection_required ≡ s.account_selection_required)
            × (s'.reauthentication_required ≡ s.reauthentication_required)
            × (s'.consent_required ≡ false)
            × (s'.user_id ≡ some user_id)
            × (s'.id ≡ s.id)
      close bound narrowed (kept a b c d e i) (kept a' b' c' d' e' i') last =
          (ground arith, ground arith, ground arith, ground arith, ground arith, ground arith)

      flags :
          {bound : InteractionSession}
          → Kept s bound user_id
          → (narrowed : InteractionSession) → narrow_interaction_scopes bound approved ≡ ok narrowed
          → record narrowed { consent_required = false } ≡ s'
          → (s'.authentication_required ≡ s.authentication_required)
            × (s'.account_selection_required ≡ s.account_selection_required)
            × (s'.reauthentication_required ≡ s.reauthentication_required)
            × (s'.consent_required ≡ false)
            × (s'.user_id ≡ some user_id)
            × (s'.id ≡ s.id)
      flags {bound} (kept a b c d e i) narrowed h last =
          close bound narrowed (kept a b c d e i) (narrow-Kept bound narrowed approved user_id e h)
            last

  -- a step that is the first required one is over, and the session has its user and
  -- keeps its ID
  pub apply_interaction_step_advances :
      (s s' : InteractionSession) (user_id : Bytes) (step : Step) (input : StepInput) (w w' : W)
      → first_step (required_interaction_steps s) ≡ some step
      → apply_interaction_step services s user_id step input w ≡ (ok s', w')
      → (position s < position s') × (s'.user_id ≡ some user_id) × (s'.id ≡ s.id)
  unfolding apply_interaction_step required_interaction_steps
  apply_interaction_step_advances s s' user_id authenticate input w w' f h =
      elim (bind-Steps _ _ w s' w' h) [
        | steps bound v bind rest ↦ elim (bind-Kept s bound user_id (lifted _ bound w v bind)) [
          | kept a b c d e i ↦
              let (off, same, i') = populate_lem _ s' user_id input.authentication_time v w' rest in
              (ground arith, ground arith, ground arith)
        ]
      ]
  apply_interaction_step_advances s s' user_id select_account input w w' f h =
      elim (bind-Steps _ _ w s' w' h) [
        | steps switched v switch last ↦
            let (off, account, bound, i') =
              switch_lem s switched user_id input.authentication_time w v switch in
            (ground arith, ground arith, ground arith)
      ]
  apply_interaction_step_advances s s' user_id reauthenticate input w w' f h =
      let (a, b, c, d, i) = reauthentication_lem s s' user_id input.reauthentication_token w w' h in
      (ground arith, d, i)
  apply_interaction_step_advances s s' user_id consent input w w' f h =
      let (a, b, c, d, e, i) = consent_lem s s' user_id input.approved_scopes input.meta w w' h in
      (ground arith, e, i)
  apply_interaction_step_advances s s' user_id (other x) input w w' f h = cc
