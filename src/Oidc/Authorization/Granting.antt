-- ===== src/Oidc/Authorization/Granting.antt =====
-- How a request of a signed-in user is granted inside the transaction (`authorizeAuthenticated` in
-- backend/internal/oidc/authorization_service.go).
use pocket_id.Prelude.{
  ℕ, eqb, subst, Bool, true, false, not, Option, none, some, ◌≡◌, ◌≢◌, ◌∙◌, arith, Bool-cases, inl,
  inr, if◌then◌else◌,
}
use pocket_id.AppError.{plain}
use pocket_id.Result.{ok}
use pocket_id.Exec.{raise}
use pocket_id.Exec.Runs.{steps, bind-Steps, unless_raised}
use pocket_id.CallbackUrl.Bytes.{Bytes}
use pocket_id.Oidc.Scopes.{access_denied}
use pocket_id.Oidc.Resource.{subject_user, resolve_resource, consent_keys_for_grant}
use pocket_id.Oidc.Resource.Grants.{Granted, resolve_resource-Granted}
use pocket_id.Oidc.Consent.{User, consent_rounds, is_user_group_allowed_to_authorize}
use pocket_id.Oidc.Interaction.{
  InteractionSession, Requirements, any_required, Services, client_authorization,
  new_client_authorization, is_user, delete_session,
}
use pocket_id.Oidc.Steps.{resolve_grant, record_consent, switch_interaction_session_user}
use pocket_id.Oidc.Request.{
  AuthorizeInput, Grant, granted, first_set, request_time, build_authorized_session,
}
use pocket_id.Oidc.Authorization.{
  switched_session, require_interaction, use_session, grant_request, resolve_requirements,
  authorize_user, authorize_found, authorize_authenticated,
}
use pocket_id.Oidc.Authorization.Fulfilment.{Met, resolve_requirements-Met}
use pocket_id.Oidc.Authorization.Access.{Allowed, is_user_group_allowed_to_authorize-Allowed}

module _ {C P W : Type 0} (services : Services C P W) where
  -- a session that is resumed is used up: its row was there and is deleted
  pub data Used (v : W) : Option InteractionSession → W → Type 0 where
    nothing_resumed : Used v none v
    used :
        (s : InteractionSession) (rows : ℕ) (u : W)
        → services.delete_session s.id v ≡ (ok rows, u)
        → rows ≢ 0
        → Used v (some s) u

  use_session-Used :
      (session : Option InteractionSession) (v u : W)
      → use_session services session v ≡ (ok tt, u)
      → Used v session u
  unfolding use_session delete_session
  use_session-Used none v u h =
      let same : v ≡ u = ground arith in subst (Used v none) same nothing_resumed
  use_session-Used (some s) v u h = elim (bind-Steps _ _ v tt u h) [
    | steps deleted x deleting last ↦ elim (bind-Steps _ _ v deleted x deleting) [
      | steps rows y run kept ↦ elim (Bool-cases deleted) [
        | inr off ↦ let last' = rw off at last in cc
        | inl on ↦
            let last' = rw on at last in
            let same : x ≡ u = cc in
            let same_y : y ≡ x = cc in
            let some_rows : not (eqb rows 0) ≡ true = ground arith in
            used s rows u (rw (same_y, same) at run) (ground arith)
      ]
    ]
  ]

  -- The calls that grant a request, before the claims of its session are filled in: the session that it
  -- resumes is used up; the audience and scopes are those that `resolveResource` grants; the consent
  -- to them is recorded, and the grant logged.
  pub data Granting (input : AuthorizeInput) (now : ℕ) (session : Option InteractionSession) (t : ℕ)
      (g : Grant) (w : W) : W → Type 0 where
    granting :
        (resource : Bytes) (known : Bool) (w₁ w₂ w₃ : W)
        → Used w session w₁
        → input.get_resource ≡ ok resource
        → resolve_resource services.provider input.client.id resource input.requested_scopes
            subject_user w₁
          ≡ (ok (g.audience, g.scopes), w₂)
        → Granted services.provider input.client.id resource input.requested_scopes subject_user
            g.audience g.scopes
        → consent_rounds services.consents 2
            (raise (plain "consent"))
            input.user_id
            input.client.id
            (consent_keys_for_grant g.audience resource g.scopes)
            w₂
          ≡ (ok known, w₃)
        → g.session ≡ record {
          subject = input.user_id;
          authentication_method = input.authentication_method;
          authentication_time = if eqb t 0 then now else t;
          requested_at = first_set (request_time input.requested_at session) now;
        }
        → Granting input now session t g w (
            services.create_audit_log
              (if known then client_authorization else new_client_authorization)
              input.meta
              input.user_id
              input.client.name
              w₃)

  grant_request-Granting :
      (input : AuthorizeInput) (now : ℕ) (session : Option InteractionSession) (t : ℕ) (g : Grant)
      (w w' : W)
      → grant_request services input now session t w ≡ (ok (granted g), w')
      → Granting input now session t g w w'
  unfolding grant_request resolve_grant record_consent build_authorized_session
  grant_request-Granting input now session t g w w' h = elim (bind-Steps _ _ w (granted g) w' h) [
    | steps done v using h₁ ↦ elim (bind-Steps _ _ v (granted g) w' h₁) [
      | steps resource u got h₂ ↦ elim (bind-Steps _ _ u (granted g) w' h₂) [
        | steps (audience, scopes, keys) x resolved h₃ ↦
            elim (bind-Steps _ _ u (audience, scopes, keys) x resolved) [
              | steps (a, ss) z resolving rest ↦ elim (bind-Steps _ _ x (granted g) w' h₃) [
                | steps known y recorded h₄ ↦ elim (bind-Steps _ _ y (granted g) w' h₄) [
                  | steps logged q audit last ↦
                      let a' : a ≡ g.audience = ground arith in
                      let ss' : ss ≡ g.scopes = ground arith in
                      let keys' : keys ≡ consent_keys_for_grant g.audience resource g.scopes =
                        ground arith in
                      let same_u : u ≡ v = cc in
                      let same_x : x ≡ z = cc in
                      let same_q : services.create_audit_log
                            (if known then client_authorization else new_client_authorization)
                            input.meta input.user_id input.client.name y
                          ≡ q =
                        cc in
                      let same_end : q ≡ w' = cc in
                      let resolving' = rw (a', ss', same_u) at resolving in
                      subst (Granting input now session t g w) (same_q ∙ same_end) (
                        granting resource known v z y (use_session-Used session w v using) (cc)
                          resolving'
                          (resolve_resource-Granted services.provider input.client.id resource
                            input.requested_scopes subject_user v z g.audience g.scopes resolving')
                          (rw (keys', same_x) at recorded) (ground arith))
                ]
              ]
            ]
      ]
    ]
  ]

  -- the session for the user of the request: as it was loaded, or switched to this user and stored
  pub data Switched (input : AuthorizeInput) (v : W)
      : Option InteractionSession → Option InteractionSession → W → Type 0 where
    no_session : Switched input v none none v
    own :
        (s : InteractionSession)
        → is_user s.user_id input.user_id ≡ true
        → Switched input v (some s) (some s) v
    switched :
        (s s' : InteractionSession) (x u : W)
        → is_user s.user_id input.user_id ≡ false
        → switch_interaction_session_user services s input.user_id input.authentication_time v
          ≡ (ok s', x)
        → services.update_session s' x ≡ (ok tt, u)
        → Switched input v (some s) (some s') u

  switched_session-Switched :
      (input : AuthorizeInput) (loaded session : Option InteractionSession) (v u : W)
      → switched_session services input loaded v ≡ (ok session, u)
      → Switched input v loaded session u
  unfolding switched_session
  switched_session-Switched input none session v u h =
      let same : none ≡ session = cc in
      let same_state : v ≡ u = cc in rw (← same, ← same_state) no_session
  switched_session-Switched input (some s) session v u h =
      elim (Bool-cases (is_user s.user_id input.user_id)) [
        | inl on ↦
            let h' = rw on at h in
            let same : some s ≡ session = cc in
            let same_state : v ≡ u = cc in rw (← same, ← same_state) (own s on)
        | inr off ↦ elim (bind-Steps _ _ v session u (rw off at h)) [
          | steps s' x switching h₁ ↦ elim (bind-Steps _ _ x session u h₁) [
            | steps done y updated last ↦
                let same : some s' ≡ session = cc in
                let same_state : y ≡ u = cc in
                rw (← same, ← same_state) (switched s s' x y off switching updated)
          ]
        ]
      ]

  -- what stands behind a grant to a user, call after call, up to the claims of the session
  pub data UserGranted (input : AuthorizeInput) (now : ℕ) (loaded : Option InteractionSession)
      (g : Grant) (w w' : W) : Type 0 where
    user_granted :
        (user : User) (session : Option InteractionSession) (t : ℕ) (w₁ w₂ w₃ : W)
        → services.find_user input.user_id w ≡ (ok (some user), w₁)
        → Allowed user input.client
        → Switched input w₁ loaded session w₂
        → Met services input now session w₂ t w₃
        → Granting input now session t g w₃ w'
        → UserGranted input now loaded g w w'

  no_grant :
      (input : AuthorizeInput) (r : Requirements) (session : Option InteractionSession) (g : Grant)
      (w w' : W)
      → require_interaction services input r session w ≢ (ok (granted g), w')
  unfolding require_interaction
  no_grant input r (some s) g w w' h = cc
  no_grant input r none g w w' h = elim (bind-Steps _ _ w (granted g) w' h) [
    | steps created v made last ↦ cc
  ]

  pub authorize_authenticated-UserGranted :
      (input : AuthorizeInput) (now : ℕ) (loaded : Option InteractionSession) (g : Grant) (w w' : W)
      → authorize_authenticated services input now loaded w ≡ (ok (granted g), w')
      → UserGranted input now loaded g w w'
  unfolding authorize_authenticated authorize_user
  authorize_authenticated-UserGranted input now loaded g w w' h =
      elim (bind-Steps _ _ w (granted g) w' h) [ steps found v read rest ↦ go found v read rest ]
    where
      finish :
          (user : User) (session : Option InteractionSession) (r : Requirements) (t : ℕ) (v u x : W)
          → services.find_user input.user_id w ≡ (ok (some user), v)
          → Allowed user input.client
          → switched_session services input loaded v ≡ (ok session, u)
          → resolve_requirements services input now session u ≡ (ok (r, t), x)
          → (if any_required r
                then require_interaction services input r session
                else grant_request services input now session t)
              x
            ≡ (ok (granted g), w')
          → UserGranted input now loaded g w w'
      finish user session r t v u x read allowed switch needed last =
          elim (Bool-cases (any_required r)) [
            | inl on ↦ absurd (no_grant input r session g x w' (rw on at last))
            | inr off ↦
                user_granted user session t v u x read allowed
                  (switched_session-Switched input loaded session v u switch)
                  (resolve_requirements-Met services input now session r t u x needed off)
                  (grant_request-Granting input now session t g x w' (rw off at last))
          ]

      go :
          (found : Option User) (v : W)
          → services.find_user input.user_id w ≡ (ok found, v)
          → authorize_found services input now loaded found v ≡ (ok (granted g), w')
          → UserGranted input now loaded g w w'
      go none v read rest = cc
      go (some user) v read rest =
          let (may, rest') =
            unless_raised (not (is_user_group_allowed_to_authorize user input.client)) access_denied
              _ v w' (granted g) rest in
          let allowed =
            is_user_group_allowed_to_authorize-Allowed user input.client (ground arith) in
          elim (bind-Steps _ _ v (granted g) w' rest') [
            | steps session u switch rest'' ↦ elim (bind-Steps _ _ u (granted g) w' rest'') [
              | steps (r, t) x needed last ↦
                  finish user session r t v u x read allowed switch needed last
            ]
          ]
