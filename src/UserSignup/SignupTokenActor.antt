-- ===== src/UserSignup/SignupTokenActor.antt =====
-- backend/internal/usersignup/actor.go. The actor's ID is the token. Counts are Go `int`s that are
-- never negative here: the code stores none below 0 (`release` stops at 0), and the inputs of
-- `create` are assumed to hold none.
pub mod Uses
pub mod Limits
pub mod Compensation
use pocket_id.Prelude.{
  ℕ, ◌+◌, ◌-◌, String, Bool, true, false, not, ◌&&◌, ◌||◌, Option, none, some, List, [], ◌==◌, leb,
  eqb, if◌then◌else◌,
}
use pocket_id.AppError.{plain}
use pocket_id.Result.{Result, ok, err}
use pocket_id.Exec.{Exec, pure, raise, wrapping, ◌>>=◌, ◌>>◌}
use pocket_id.Actor.{Client, read_clock, before}

pub data ConsumeStatus : Type 0 where
  consumed not_found limit_reached : ConsumeStatus

pub record SignupTokenState : Type 0 where
  pub id : String
  pub usage_limit : ℕ
  pub usage_count : ℕ
  pub user_group_ids : List String
  pub created_at : ℕ
  pub expires_at : ℕ

abbrev pub zero_state : SignupTokenState
zero_state = record {
  id = "";
  usage_limit = 0;
  usage_count = 0;
  user_group_ids = [];
  created_at = 0;
  expires_at = 0;
}

pub record ConsumeResponse : Type 0 where
  pub status : ConsumeStatus
  pub user_group_ids : List String

abbrev answer : ConsumeStatus → List String → ConsumeResponse
answer status ids = record { status = status; user_group_ids = ids }

module _ {W : Type 0} (client : Client SignupTokenState W) where
  unfoldable pub set_state : SignupTokenState → Exec W (Unit {0})
  set_state state = do
    t ← read_clock client
    if leb state.expires_at t
        then pure tt
        else wrapping "error saving actor state" (client.set_state state (state.expires_at - t))

  unfoldable pub get_state : Exec W SignupTokenState
  get_state = wrapping "error retrieving actor state" client.get_state

  unfoldable pub create_checked : SignupTokenState → Exec W (Unit {0})
  create_checked state = do
    current ← get_state
    if current.id == "" then set_state state else pure tt

  -- `create(data, onlyIfMissing)`, for the methods `create` and `migrate`
  unfoldable pub create : Option (Result SignupTokenState) → Bool → Exec W (Unit {0})
  create none only_if_missing = raise (plain "request body is empty for method 'create'")
  create (some (err e)) only_if_missing =
      raise (plain "request body is not valid for method 'create'")
  create (some (ok state)) only_if_missing =
      if only_if_missing then create_checked state else set_state state

  -- `state.ID == "" || state.ExpiresAt.Before(time.Now())`
  unfoldable pub is_missing : SignupTokenState → Exec W Bool
  is_missing state =
      if state.id == ""
      then pure true
      else do t ← read_clock client; pure (before state.expires_at t)

  unfoldable pub use_once : SignupTokenState → Exec W ConsumeResponse
  use_once state =
      if leb state.usage_limit state.usage_count then pure (answer limit_reached []) else do
        set_state (record state { usage_count = state.usage_count + 1 })
        pure (answer consumed state.user_group_ids)

  unfoldable pub consume : Exec W ConsumeResponse
  consume = do
    state ← get_state
    missing ← is_missing state
    if missing then pure (answer not_found []) else use_once state

  unfoldable pub release_on : SignupTokenState → Exec W (Unit {0})
  release_on state =
      if state.id == "" || eqb state.usage_count 0
      then pure tt
      else set_state (record state { usage_count = state.usage_count - 1 })

  unfoldable pub release : Exec W (Unit {0})
  release = do state ← get_state; release_on state

  forgive : Result (Unit {0}) × W → Result (Unit {0}) × W
  forgive (ok u, w) = (ok u, w)
  forgive (err e, w) =
      if client.is_state_not_found e
      then (ok tt, w)
      else wrapping "error deleting actor state" (raise e) w

  unfoldable pub delete : Exec W (Unit {0})
  unfolding forgive
  delete w = forgive (client.delete_state w)
