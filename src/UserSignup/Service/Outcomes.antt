-- ===== src/UserSignup/Service/Outcomes.antt =====
-- Every way in which a signup ends (`SignUp` in backend/internal/usersignup/service.go).
use pocket_id.Prelude.{
  String, Bool, true, false, not, none, some, List, [], ◌==◌, ◌≡◌, ◌≢◌, refl, arith, eq_iff,
  Bool-cases, inl, inr, if◌then◌else◌,
}
use pocket_id.AppError.{Error, wrapped, token_invalid_or_expired}
use pocket_id.Result.{Result, ok, err}
use pocket_id.Exec.Runs.{steps, bind-Steps}
use pocket_id.Exec.{pure, raise, rename, continue, ◌>>=◌}
use pocket_id.UserSignup.SignupTokenActor.{
  ConsumeStatus, consumed, not_found, limit_reached, ConsumeResponse,
}
use pocket_id.UserSignup.Service.{
  Services, open_signup_disabled, is_consumed, create_inside, create_signed_up_user,
  release_if_given, finished, sign_up_with, consume_token, sign_up,
}

module _ {D U W : Type 0} (services : Services D U W) where
  -- who may sign up: anyone where signups are open, or who brings a token that its actor consumed
  pub data Admitted (signups_open : Bool) (token : String) (w : W) (groups : List String) (v : W)
      : Type 0 where
    openly :
        token ≡ ""
        → signups_open ≡ true
        → groups ≡ []
        → v ≡ w
        → Admitted signups_open token w groups v
    by_token :
        (answer : ConsumeResponse)
        → token ≢ ""
        → services.consume token w ≡ (ok answer, v)
        → answer.status ≡ consumed
        → groups ≡ answer.user_group_ids
        → Admitted signups_open token w groups v

  -- the user as created, with a deadline where the user is pending
  pub data Dated (made : U) (v : W) : U → W → Type 0 where
    not_pending : services.is_pending made ≡ false → Dated made v made v
    dated :
        (user : U) (u : W)
        → services.is_pending made ≡ true
        → services.set_deadline made v ≡ (ok user, u)
        → Dated made v user u

  -- the calls of a creation that succeeds, in their order
  pub data Created (input : D) (token : String) (groups : List String) (v : W) (user : U)
      (access_token : String) : W → Type 0 where
    creation :
        (made : U) (v₁ v₂ v₃ v₄ : W)
        → services.create_user input groups (services.begin_transaction v) ≡ (ok made, v₁)
        → Dated made v₁ user v₂
        → services.generate_access_token user v₂ ≡ (ok access_token, v₃)
        → services.commit_transaction
            (services.create_audit_log user (if token == "" then none else some token) v₃)
          ≡ (ok tt, v₄)
        → Created input token groups v user access_token
            (services.rollback (services.schedule_sync v₄))

  pub data Outcome (signups_open : Bool) (input : D) (token : String) (w : W)
      : Result (U × String) → W → Type 0 where
    closed :
        token ≡ ""
        → signups_open ≡ false
        → Outcome signups_open input token w (err open_signup_disabled) w
    unreachable :
        (e : Error) (v : W)
        → services.consume token w ≡ (err e, v)
        → Outcome signups_open input token w (err (wrapped "error invoking signup token actor" e)) v
    refused :
        (answer : ConsumeResponse) (v : W)
        → services.consume token w ≡ (ok answer, v)
        → answer.status ≢ consumed
        → Outcome signups_open input token w (err token_invalid_or_expired) v
    -- no account, and a token that was consumed is released
    failed :
        (groups : List String) (e : Error) (v u : W)
        → Admitted signups_open token w groups v
        → create_signed_up_user services input token groups v ≡ (err e, u)
        → Outcome signups_open input token w
            (err e)
            (if token == "" then u else services.release token u)
    -- the account is created and committed, and nothing follows but the mail to a pending user
    created :
        (groups : List String) (user : U) (access_token : String) (v u : W)
        → Admitted signups_open token w groups v
        → Created input token groups v user access_token u
        → Outcome signups_open input token w
            (ok (user, access_token))
            (if services.is_pending user then services.send_verification user u else u)

  Dated-of :
      (made user : U) (v u : W)
      → (if services.is_pending made then services.set_deadline made else pure made) v
        ≡ (ok user, u)
      → Dated made v user u
  Dated-of made user v u h = elim (Bool-cases (services.is_pending made)) [
    | inl on ↦ dated user u on (rw on at h)
    | inr off ↦
        let h' = rw off at h in
        let same : made ≡ user = cc in
        let same_state : v ≡ u = cc in rw (← same, ← same_state) (not_pending off)
  ]

  create_inside-Created :
      (input : D) (token : String) (groups : List String) (v z : W) (user : U)
      (access_token : String)
      → create_inside services input token groups (services.begin_transaction v)
        ≡ (ok (user, access_token), z)
      → Created input token groups v user access_token (services.rollback z)
  unfolding create_inside
  create_inside-Created input token groups v z user access_token h =
      elim (bind-Steps _ _ (services.begin_transaction v) (user, access_token) z h) [
        | steps made v₁ creating h₁ ↦ elim (bind-Steps _ _ v₁ (user, access_token) z h₁) [
          | steps owner v₂ dating h₂ ↦ elim (bind-Steps _ _ v₂ (user, access_token) z h₂) [
            | steps jwt v₃ issued h₃ ↦ elim (bind-Steps _ _ v₃ (user, access_token) z h₃) [
              | steps a v₄ logging h₄ ↦ elim (bind-Steps _ _ v₄ (user, access_token) z h₄) [
                | steps b v₅ committing h₅ ↦ elim (bind-Steps _ _ v₅ (user, access_token) z h₅) [
                  | steps c v₆ syncing last ↦
                      let same : owner ≡ user = cc in
                      let same_token : jwt ≡ access_token = cc in
                      let same_log : services.create_audit_log owner
                            (if token == "" then none else some token) v₃
                          ≡ v₄ =
                        cc in
                      let same_end : services.schedule_sync v₅ ≡ z = cc in
                      rw (← same, ← same_token, ← same_end)
                        (creation made v₁ v₂ v₃ v₅ creating (Dated-of made owner v₁ v₂ dating)
                          issued (rw same_log committing))
                ]
              ]
            ]
          ]
        ]
      ]

  create_signed_up_user-Created :
      (input : D) (token : String) (groups : List String) (v u : W) (user : U)
      (access_token : String)
      → create_signed_up_user services input token groups v ≡ (ok (user, access_token), u)
      → Created input token groups v user access_token u
  unfolding create_signed_up_user
  create_signed_up_user-Created input token groups v u user access_token h =
      let (r, z) = create_inside services input token groups (services.begin_transaction v) in
      let same : r ≡ ok (user, access_token) = cc in
      let same_state : services.rollback z ≡ u = cc in
      rw (← same_state) (create_inside-Created input token groups v z user access_token (rw (same)))

  module _ (signups_open : Bool) (input : D) (token : String) (w z : W)
      (r : Result (U × String)) where
    sign_up_with-Outcome :
        (groups : List String) (v : W)
        → Admitted signups_open token w groups v
        → sign_up_with services input token groups v ≡ (r, z)
        → Outcome signups_open input token w r z
    unfolding sign_up_with
    sign_up_with-Outcome groups v admitted h =
        go (create_signed_up_user services input token groups v) refl h
      where
        go :
            (c : Result (U × String) × W)
            → create_signed_up_user services input token groups v ≡ c
            → finished services token c ≡ (r, z)
            → Outcome signups_open input token w r z
        go (err e, u) made k =
            let same_r : err e ≡ r = cc in
            let same_z : release_if_given services token u ≡ z = cc in
            rw (← same_r, ← same_z) (failed groups e v u admitted made)
        go (ok (user, access_token), u) made k =
            let same_r : ok (user, access_token) ≡ r = cc in
            let same_z : (if services.is_pending user then services.send_verification user u else u)
                ≡ z =
              cc in
            rw (← same_r, ← same_z)
              (created groups user access_token v u admitted
                (create_signed_up_user-Created input token groups v u user access_token made))

    consumed_status : (s : ConsumeStatus) → is_consumed s ≡ true → s ≡ consumed
    consumed_status consumed h = refl
    consumed_status not_found h = cc
    consumed_status limit_reached h = cc

    other_status : (s : ConsumeStatus) → is_consumed s ≡ false → s ≢ consumed
    other_status consumed h = cc
    other_status not_found h = λ e. cc
    other_status limit_reached h = λ e. cc

    with_token-Outcome :
        token ≢ ""
        → (consume_token services token >>= sign_up_with services input token) w ≡ (r, z)
        → Outcome signups_open input token w r z
    unfolding consume_token ◌>>=◌
    with_token-Outcome given h = go (services.consume token w) refl h
      where
        answered :
            (answer : ConsumeResponse) (v : W)
            → services.consume token w ≡ (ok answer, v)
            → continue
                ((if not (is_consumed answer.status)
                    then raise token_invalid_or_expired
                    else pure answer.user_group_ids)
                  v)
                (sign_up_with services input token)
              ≡ (r, z)
            → Outcome signups_open input token w r z
        answered answer v asked k = elim (Bool-cases (is_consumed answer.status)) [
          | inl on ↦
              sign_up_with-Outcome answer.user_group_ids v
                (by_token answer given asked (consumed_status answer.status on) refl) (rw on at k)
          | inr off ↦
              let k' = rw off at k in
              let same_r : err token_invalid_or_expired ≡ r = cc in
              let same_z : v ≡ z = cc in
              rw (← same_r, ← same_z) (refused answer v asked (other_status answer.status off))
        ]

        go :
            (c : Result ConsumeResponse × W)
            → services.consume token w ≡ c
            → continue
                (continue (rename "error invoking signup token actor" c) (λ answer.
                  if not (is_consumed answer.status)
                  then raise token_invalid_or_expired
                  else pure answer.user_group_ids))
                (sign_up_with services input token)
              ≡ (r, z)
            → Outcome signups_open input token w r z
        go (err e, v) asked k =
            let same_r : err (wrapped "error invoking signup token actor" e) ≡ r = cc in
            let same_z : v ≡ z = cc in rw (← same_r, ← same_z) (unreachable e v asked)
        go (ok answer, v) asked k = answered answer v asked k

    -- Every signup ends in one of these ways: without a token it is refused where signups are closed; with
    -- one, where the actor fails or does not consume it; else an account is created, logged and
    -- committed with its access token, and nothing but the mail to a pending user follows, or the
    -- creation fails and a token that was consumed is released.
    pub sign_up-Outcome :
        sign_up services signups_open input token w ≡ (r, z)
        → Outcome signups_open input token w r z
    unfolding sign_up ◌>>=◌
    sign_up-Outcome h = elim (Bool-cases (token == "")) [
      | inl blank ↦
          let is : token ≡ "" = (eq_iff token "").0 blank in
          elim (Bool-cases signups_open) [
            | inl open_to_all ↦
                let h' = rw (blank, open_to_all) at h in
                sign_up_with-Outcome [] w (openly is open_to_all refl refl) h'
            | inr shut ↦
                let h' = rw (blank, shut) at h in
                let same_r : err open_signup_disabled ≡ r = cc in
                let same_z : w ≡ z = cc in rw (← same_r, ← same_z) (closed is shut)
          ]
      | inr given ↦
          let some_token : token ≢ "" = λ e. (let t = (eq_iff token "").1 e in cc) in
          with_token-Outcome some_token (ground (arith, h))
    ]
