-- ===== src/DeviceLogin/Tests.antt =====
-- Runs of one device login request over a host in memory.
use pocket_id.Prelude.{ℕ, ◌*◌, ◌≤◌, ◌<◌, false, ◌≡◌, ◌≢◌, refl}
use pocket_id.Result.{ok}
use pocket_id.Exec.{◌>>=◌}
use pocket_id.Actor.{minute, round_second}
use pocket_id.Actor.Memory.{memory, memory-IsStore}
use pocket_id.DeviceLogin.RequestActor.{
  approved, pending, none, State, zero_state, CreateInput, fresh, creates, decides, consumes,
  inspects, run, reply, invalid_reply, create, initialize, load_state, persist_state, collides,
  decide, decide_on, commit, live_state, consume, consume_status, refused, redeem, inspect,
  DecisionInput,
}
use pocket_id.DeviceLogin.RequestActor.Transitions.{Next, Decides}
use pocket_id.DeviceLogin.RequestActor.Redeeming.{is_grant}
use pocket_id.DeviceLogin.RequestActor.Opening.{Creates}
use pocket_id.DeviceLogin.RequestActor.Traces.{
  done, turn, run-Next, granted_consume, decide-Decides, create-Creates, granted_once,
}

abbrev input : CreateInput
input = record {
  code = "ABCD2345";
  device_token_hash = "h";
  ip_address = "10.0.0.1";
  user_agent = "tv";
}

abbrev opened : State
opened = fresh input (5 * minute)

abbrev granted : State
granted = record opened { status = approved; user_id = "u1" }

abbrev approval : DecisionInput
approval = record { decision = "approve"; user_id = "u1" }

create_test :
    run (memory zero_state) (creates input) (zero_state, 0)
    ≡ (ok (reply none pending (5 * minute)), (opened, 2))
unfolding run create initialize load_state persist_state collides round_second ◌>>=◌
create_test = refl

decide_test :
    run (memory zero_state) (decides approval) (opened, 3)
    ≡ (ok (reply none approved (5 * minute)), (granted, 5))
unfolding run decide decide_on commit live_state load_state persist_state ◌>>=◌
decide_test = refl

consume_test :
    run (memory zero_state) (consumes "h") (granted, 5)
    ≡ (ok (reply none approved (5 * minute)), (zero_state, 6))
unfolding run consume consume_status refused redeem load_state ◌>>=◌
consume_test = refl

again_test :
    run (memory zero_state) (consumes "h") (zero_state, 6) ≡ (ok invalid_reply, (zero_state, 6))
unfolding run consume refused load_state ◌>>=◌
again_test = refl

run-Next_example : Next granted (run (memory zero_state) (consumes "h") (granted, 5)).1.0
run-Next_example = run-Next (memory-IsStore zero_state) (consumes "h") (granted, 5) tt

granted_consume_example :
    (n : ℕ) × (granted.code ≢ "")
    × (granted.device_token_hash ≡ "h")
    × (granted.status ≡ approved)
    × (granted.user_id ≢ "")
    × (5 ≤ n)
    × (n < 5 * minute)
    × (zero_state ≡ zero_state)
granted_consume_example =
    granted_consume (memory-IsStore zero_state) "h" (granted, 5) (zero_state, 6) _ consume_test refl

decide-Decides_example :
    Decides
      (memory-IsStore zero_state)
      3
      opened
      approval
      (reply none approved (5 * minute))
      (granted, 5)
decide-Decides_example =
    decide-Decides (memory-IsStore zero_state) approval (opened, 3) (granted, 5) _ decide_test

create-Creates_test :
    Creates
      (memory-IsStore zero_state)
      0
      zero_state
      input
      (reply none pending (5 * minute))
      (opened, 2)
create-Creates_test =
    create-Creates (memory-IsStore zero_state) input (zero_state, 0) (opened, 2) _ create_test

granted_once_example : is_grant invalid_reply ≡ false
unfolding run inspect live_state load_state ◌>>=◌
granted_once_example =
    granted_once (memory-IsStore zero_state) "h" "h" (granted, 5) (zero_state, 6) (zero_state, 6)
      (zero_state, 6) (reply none approved (5 * minute)) invalid_reply consume_test refl
      (turn inspects tt done) again_test
