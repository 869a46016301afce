-- ===== src/OneTimeAccess/Service.antt =====
-- backend/internal/onetimeaccess/service.go: the exchange of a login code for a session. The code is one
-- that NormalizeUnambiguousString returned. The token's actor, the database, the signer and the audit
-- log are the operations of `Services`; where the restoration of a code fails, that is only logged.
pub mod Outcomes
mod Tests
use pocket_id.Prelude.{ℕ, String, Bool, true, false, Option, none, some, if◌then◌else◌}
use pocket_id.AppError.{
  Error, app, new_error, token_invalid_or_expired, device_code_invalid, user_disabled,
}
use pocket_id.Result.{Result, ok, err}
use pocket_id.Exec.{Exec, pure, raise, wrapping, ◌>>=◌, ◌>>◌}
use pocket_id.DeviceLogin.Service.{Account, SignIn}
use pocket_id.OneTimeAccess.TokenActor.{
  ConsumeStatus, consumed, not_found, device_mismatch, TokenState, ConsumeResponse,
}

pub record Services (W : Type 0) : Type 0 where
  -- `Invoke` of the actor with the token, and the decoded answer
  pub consume : String → String → Exec W ConsumeResponse
  pub restore : String → TokenState → W → W
  -- gorm's `First`, none where no user has the ID
  pub find_user : String → Exec W (Option Account)
  pub generate_access_token : Account → String → ℕ → Exec W String
  -- the token of the known browser
  pub create_sign_in : SignIn → W → String × W
  pub notify : W → W
  -- `StoreToken` for a user
  pub store_token : String → ℕ → Exec W String

pub record LoginTokens : Type 0 where
  pub access_token : String
  pub known_browser_token : String

module _ {W : Type 0} (services : Services W) where
  abbrev pub signed_in : Account → String → String × W → Result (Account × LoginTokens) × W
  signed_in user token (browser, w) =
      (ok (user, record { access_token = token; known_browser_token = browser }), services.notify w)

  abbrev pub complete_for : Option Account → ℕ → SignIn → Exec W (Account × LoginTokens)
  complete_for none duration sign_in = raise token_invalid_or_expired
  complete_for (some user) duration sign_in = if user.disabled then raise user_disabled else do
    token ← services.generate_access_token user "otp" duration
    λ w. signed_in user token (services.create_sign_in (record sign_in { user_id = user.id }) w)

  unfoldable pub complete_token_exchange : TokenState → ℕ → SignIn → Exec W (Account × LoginTokens)
  complete_token_exchange state duration sign_in = do
    found ← services.find_user state.user_id
    complete_for found duration sign_in

  -- an error after the code was consumed restores it
  abbrev pub compensated :
      String → TokenState → Result (Account × LoginTokens) × W → Result (Account × LoginTokens) × W
  compensated token state (ok a, w) = (ok a, w)
  compensated token state (err e, w) = (err e, services.restore token state w)

  unfoldable pub on_answer :
      ConsumeStatus → String → TokenState → ℕ → SignIn → Exec W (Account × LoginTokens)
  on_answer not_found token state duration sign_in = raise token_invalid_or_expired
  on_answer device_mismatch token state duration sign_in = raise device_code_invalid
  on_answer consumed token state duration sign_in =
      λ w. compensated token state (complete_token_exchange state duration sign_in w)

  unfoldable pub exchange_token : String → String → ℕ → SignIn → Exec W (Account × LoginTokens)
  exchange_token token device_token duration sign_in = do
    answer ←
        wrapping "error invoking one-time access token actor" (services.consume token device_token)
    on_answer answer.status token answer.state duration sign_in

  abbrev pub existing : Option Account → Exec W (Unit {0})
  existing none = raise (app (new_error "user_not_found" 404 "User not found"))
  existing (some user) = pure tt

  unfoldable pub create_token : String → ℕ → Exec W String
  create_token user_id ttl = do
    found ← services.find_user user_id
    existing found
    services.store_token user_id ttl
