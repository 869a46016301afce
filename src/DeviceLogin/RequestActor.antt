-- ===== src/DeviceLogin/RequestActor.antt =====
-- backend/internal/devicelogin/actor.go. The actor's ID is the user code; the host gives the zero
-- state where it keeps none. The inputs arrive decoded: the envelope is the host's.
pub mod Transitions
pub mod Redeeming
pub mod Opening
pub mod Traces
use pocket_id.Prelude.{
  ℕ, ◌+◌, ◌-◌, ◌*◌, String, Bool, true, false, not, ◌||◌, ◌==◌, leb, if◌then◌else◌,
}
use pocket_id.AppError.{plain}
use pocket_id.Exec.{Exec, pure, raise, wrapping, ◌>>=◌, ◌>>◌}
use pocket_id.Actor.{Client, read_clock, round_second, after, minute}

-- the type `RequestStatus`; the zero value "" is `unset`
pub data RequestStatus : Type 0 where
  unset pending approved denied : RequestStatus

pub data ResultCode : Type 0 where
  none collision invalid denied : ResultCode

pub record State : Type 0 where
  pub code : String
  pub device_token_hash : String
  pub status : RequestStatus
  pub expires_at : ℕ
  pub ip_address : String
  pub user_agent : String
  pub user_id : String

abbrev pub zero_state : State
zero_state = record {
  code = "";
  device_token_hash = "";
  status = unset;
  expires_at = 0;
  ip_address = "";
  user_agent = "";
  user_id = "";
}

-- `requestActorResult`
pub record Reply : Type 0 where
  pub code : ResultCode
  pub status : RequestStatus
  pub user_code : String
  pub ip_address : String
  pub user_agent : String
  pub expires_at : ℕ
  pub user_id : String

abbrev pub reply : ResultCode → RequestStatus → ℕ → Reply
reply c s t = record {
  code = c;
  status = s;
  user_code = "";
  ip_address = "";
  user_agent = "";
  expires_at = t;
  user_id = "";
}

abbrev pub invalid_reply : Reply
invalid_reply = reply invalid unset 0

pub record CreateInput : Type 0 where
  pub code : String
  pub device_token_hash : String
  pub ip_address : String
  pub user_agent : String

pub record DecisionInput : Type 0 where
  pub decision : String
  pub user_id : String

-- service.go
abbrev pub request_duration : ℕ
request_duration = 5 * minute

abbrev pub fresh : CreateInput → ℕ → State
fresh input t = record {
  code = input.code;
  device_token_hash = input.device_token_hash;
  status = pending;
  expires_at = t;
  ip_address = input.ip_address;
  user_agent = input.user_agent;
  user_id = "";
}

abbrev pub is_pending : RequestStatus → Bool
is_pending pending = true
is_pending _ = false

-- the texts of `fmt.Errorf` and `errors.New`
abbrev load_failed : String
load_failed = "failed to load device login actor state"

abbrev unsupported_decision : String
unsupported_decision = "unsupported device login decision"

module _ {W : Type 0} (client : Client State W) where
  unfoldable pub load_state : Exec W State
  load_state = wrapping load_failed client.get_state

  -- `liveState`: the state, and whether it is stored and not over
  unfoldable pub live_state : Exec W (State × Bool)
  live_state = do
    state ← load_state
    if state.code == ""
        then pure (state, false)
        else do t ← read_clock client; pure (state, after state.expires_at t)

  unfoldable pub persist_state : State → Exec W (Unit {0})
  persist_state state = do
    t ← read_clock client
    if leb state.expires_at t
        then raise (plain "cannot persist expired device login actor state")
        else wrapping "failed to persist device login actor state"
            (client.set_state state (state.expires_at - t))

  -- the test for a live request under the same code, in `create`
  unfoldable pub collides : State → Exec W Bool
  collides state =
      if state.code == ""
      then pure false
      else do t ← read_clock client; pure (after state.expires_at t)

  unfoldable pub initialize : CreateInput → Exec W Reply
  initialize input = do
    t ← read_clock client
    let expires_at = round_second t + request_duration
    persist_state (fresh input expires_at)
    pure (reply none pending expires_at)

  unfoldable pub create : CreateInput → Exec W Reply
  create input =
      if input.code == "" || input.device_token_hash == "" then pure invalid_reply else do
        state ← load_state
        live ← collides state
        if live then pure (reply collision unset 0) else initialize input

  unfoldable pub inspect : Exec W Reply
  inspect = do
    (state, valid) ← live_state
    if not valid || not (is_pending state.status)
        then pure invalid_reply
        else pure (record {
          code = none;
          status = state.status;
          user_code = state.code;
          ip_address = state.ip_address;
          user_agent = state.user_agent;
          expires_at = state.expires_at;
          user_id = "";
        })

  unfoldable pub unless_over : State → Reply → Exec W Reply
  unless_over state r = do
    t ← read_clock client
    if after state.expires_at t then pure r else pure invalid_reply

  unfoldable pub poll_status : RequestStatus → State → Exec W Reply
  poll_status pending state = unless_over state (reply none pending state.expires_at)
  poll_status approved state =
      if state.user_id == ""
      then pure invalid_reply
      else unless_over state
          (record (reply none approved state.expires_at) { user_id = state.user_id })
  poll_status denied state = unless_over state (reply denied denied state.expires_at)
  poll_status unset state = pure invalid_reply

  unfoldable pub poll : String → Exec W Reply
  poll device_token_hash = do
    state ← load_state
    if state.code == "" || not (state.device_token_hash == device_token_hash)
        then pure invalid_reply
        else poll_status state.status state

  unfoldable pub commit : State → Exec W Reply
  commit state = do persist_state state; pure (reply none state.status state.expires_at)

  -- `decide` after `liveState` returned
  unfoldable pub decide_on : DecisionInput → State × Bool → Exec W Reply
  decide_on input (state, valid) =
      if not valid || not (is_pending state.status)
      then pure invalid_reply
      else if input.decision == "deny"
      then commit (record state { status = denied })
      else if input.decision == "approve"
      then commit (record state { status = approved; user_id = input.user_id })
      else raise (plain unsupported_decision)

  unfoldable pub decide : DecisionInput → Exec W Reply
  decide input = do live ← live_state; decide_on input live

  unfoldable pub redeem : State → Exec W Reply
  redeem state = if state.user_id == "" then pure invalid_reply else do
    wrapping "failed to delete consumed device login actor state" client.delete_state
    pure (reply none approved state.expires_at)

  unfoldable pub consume_status : RequestStatus → State → Exec W Reply
  consume_status pending state = pure (reply none pending state.expires_at)
  consume_status denied state = pure (reply denied denied state.expires_at)
  consume_status approved state = redeem state
  consume_status unset state = pure invalid_reply

  -- `state.Code == "" || !hashes equal || !state.ExpiresAt.After(time.Now())`: the clock is read
  -- only where the first two tests fail
  unfoldable pub refused : State → String → Exec W Bool
  refused state device_token_hash =
      if state.code == "" || not (state.device_token_hash == device_token_hash)
      then pure true
      else do t ← read_clock client; pure (not (after state.expires_at t))

  unfoldable pub consume : String → Exec W Reply
  consume device_token_hash = do
    state ← load_state
    over ← refused state device_token_hash
    if over then pure invalid_reply else consume_status state.status state

-- The methods of `Invoke` and `Peek` with their decoded inputs.
pub data Call : Type 0 where
  creates : CreateInput → Call
  decides : DecisionInput → Call
  consumes : String → Call
  inspects : Call
  polls : String → Call

unfoldable pub run : {W : Type 0} → Client State W → Call → Exec W Reply
run client (creates input) = create client input
run client (decides input) = decide client input
run client (consumes device_token_hash) = consume client device_token_hash
run client inspects = inspect client
run client (polls device_token_hash) = poll client device_token_hash
