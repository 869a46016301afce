-- ===== src/OneTimeAccess/TokenActor.antt =====
-- backend/internal/onetimeaccess/actor.go. The actor's ID is the token. The payload of a call is
-- what the envelope decodes to; a missing envelope is `none`.
pub mod Redeeming
pub mod Traces
use pocket_id.Prelude.{
  ℕ, ◌-◌, String, Bool, true, false, not, ◌||◌, Option, none, some, ◌==◌, leb, if◌then◌else◌,
}
use pocket_id.AppError.{plain}
use pocket_id.Result.{Result, ok, err}
use pocket_id.Exec.{Exec, pure, raise, wrapping, ◌>>=◌, ◌>>◌}
use pocket_id.Actor.{Client, read_clock, before}

pub data ConsumeStatus : Type 0 where
  consumed not_found device_mismatch : ConsumeStatus

pub record TokenState : Type 0 where
  pub user_id : String
  pub device_token : Option String
  pub expires_at : ℕ

abbrev pub zero_state : TokenState
zero_state = record { user_id = ""; device_token = none; expires_at = 0 }

pub record ConsumeResponse : Type 0 where
  pub status : ConsumeStatus
  pub state : TokenState

-- `state.DeviceToken != nil && req.DeviceToken != *state.DeviceToken`
abbrev pub mismatches : Option String → String → Bool
mismatches none device_token = false
mismatches (some expected) device_token = not (device_token == expected)

module _ {W : Type 0} (client : Client TokenState W) where
  -- `state.UserID == "" || state.ExpiresAt.Before(time.Now())`
  unfoldable pub is_missing : TokenState → Exec W Bool
  is_missing state =
      if state.user_id == ""
      then pure true
      else do t ← read_clock client; pure (before state.expires_at t)

  unfoldable pub redeem : TokenState → String → Exec W ConsumeResponse
  redeem state device_token =
      if mismatches state.device_token device_token
      then pure (record { status = device_mismatch; state = zero_state })
      else do
        wrapping "error deleting actor state" client.delete_state
        pure (record { status = consumed; state = state })

  unfoldable pub consume_with : String → Exec W ConsumeResponse
  consume_with device_token = do
    state ← wrapping "error retrieving actor state" client.get_state
    missing ← is_missing state
    if missing
        then pure (record { status = not_found; state = zero_state })
        else redeem state device_token

  -- an absent request decodes to the zero request, whose device token is ""
  unfoldable pub consume : Option (Result String) → Exec W ConsumeResponse
  consume (some (err e)) = raise (plain "request body is not valid for method 'consume'")
  consume (some (ok device_token)) = consume_with device_token
  consume none = consume_with ""

  unfoldable pub restore : Option (Result TokenState) → Exec W (Unit {0})
  restore none = raise (plain "request body is empty for method 'restore'")
  restore (some (err e)) = raise (plain "request body is not valid for method 'restore'")
  restore (some (ok state)) = do
    t ← read_clock client
    if leb state.expires_at t
        then pure tt
        else wrapping "error saving actor state" (client.set_state state (state.expires_at - t))
