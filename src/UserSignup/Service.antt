-- ===== src/UserSignup/Service.antt =====
-- backend/internal/usersignup/service.go: the creation of an account, with or without a signup token.
-- The token's actor, the user service (users are `U`, and what it creates one from is `D`), the signer,
-- the audit log and the mails are the operations of `Services`; where the release of a token or
-- a mail fails, that is only logged. The synchronisation with SCIM is given.
pub mod Outcomes
mod Tests
use pocket_id.Prelude.{
  ℕ, String, Bool, true, false, not, ◌&&◌, Option, none, some, List, [], ◌==◌, if◌then◌else◌,
}
use pocket_id.AppError.{Error, app, new_error, token_invalid_or_expired}
use pocket_id.Result.{Result, ok, err}
use pocket_id.Exec.{Exec, pure, raise, wrapping, ◌>>=◌, ◌>>◌}
use pocket_id.UserSignup.SignupTokenActor.{
  ConsumeStatus, consumed, not_found, limit_reached, ConsumeResponse,
}

pub record Services (D U W : Type 0) : Type 0 where
  -- `Invoke` of the actor with the token, and the decoded answer
  pub consume : String → Exec W ConsumeResponse
  pub release : String → W → W
  pub begin_transaction : W → W
  pub commit_transaction : Exec W (Unit {0})
  pub rollback : W → W
  -- `CreateUserInternal`, with the groups of the token
  pub create_user : D → List String → Exec W U
  pub is_pending : U → Bool
  -- the deadline of the verification, and the user with it
  pub set_deadline : U → Exec W U
  pub generate_access_token : U → Exec W String
  -- the signup token, none for an open signup
  pub create_audit_log : U → Option String → W → W
  pub schedule_sync : W → W
  pub send_verification : U → W → W

abbrev pub open_signup_disabled : Error
open_signup_disabled = app (new_error "open_signup_disabled" 403 "Open user signup is not enabled")

abbrev pub is_consumed : ConsumeStatus → Bool
is_consumed consumed = true
is_consumed not_found = false
is_consumed limit_reached = false

module _ {D U W : Type 0} (services : Services D U W) where
  abbrev pub token_of : String → Option String
  token_of token = if token == "" then none else some token

  abbrev pub log_creation : U → String → Exec W (Unit {0})
  log_creation user token w = (ok tt, services.create_audit_log user (token_of token) w)

  abbrev pub sync : Exec W (Unit {0})
  sync w = (ok tt, services.schedule_sync w)

  -- between `Begin` and the deferred `Rollback`
  unfoldable pub create_inside : D → String → List String → Exec W (U × String)
  create_inside input token groups = do
    created ← services.create_user input groups
    user ← (if services.is_pending created then services.set_deadline created else pure created)
    access_token ← services.generate_access_token user
    log_creation user token
    services.commit_transaction
    sync
    pure (user, access_token)

  unfoldable pub create_signed_up_user : D → String → List String → Exec W (U × String)
  create_signed_up_user input token groups w =
      let (r, w') = create_inside input token groups (services.begin_transaction w) in
      (r, services.rollback w')

  abbrev pub release_if_given : String → W → W
  release_if_given token w = if token == "" then w else services.release token w

  -- an error after the token was consumed releases it
  abbrev pub finished : String → Result (U × String) × W → Result (U × String) × W
  finished token (err e, w) = (err e, release_if_given token w)
  finished token (ok (user, access_token), w) = (
    ok (user, access_token),
    if services.is_pending user then services.send_verification user w else w,
  )

  unfoldable pub sign_up_with : D → String → List String → Exec W (U × String)
  sign_up_with input token groups w = finished token (create_signed_up_user input token groups w)

  unfoldable pub consume_token : String → Exec W (List String)
  consume_token token = do
    answer ← wrapping "error invoking signup token actor" (services.consume token)
    if not (is_consumed answer.status)
        then raise token_invalid_or_expired
        else pure answer.user_group_ids

  -- `signups_open`: the setting AllowUserSignups is "open"
  unfoldable pub sign_up : Bool → D → String → Exec W (U × String)
  sign_up signups_open input token =
      if not signups_open && token == "" then raise open_signup_disabled else do
        groups ← (if token == "" then pure [] else consume_token token)
        sign_up_with input token groups
