-- ===== src/OneTimeAccess/Tests.antt =====
-- Runs of one login code over a host in memory.
use pocket_id.Prelude.{◌≤◌, ◌≡◌, ◌≢◌, ◌⊎◌, some, refl}
use pocket_id.Result.{ok}
use pocket_id.Exec.{◌>>=◌}
use pocket_id.Actor.Memory.{memory, memory-IsStore}
use pocket_id.OneTimeAccess.TokenActor.{
  ConsumeStatus, consumed, not_found, device_mismatch, TokenState, zero_state, ConsumeResponse,
  is_missing, redeem, consume_with, consume, restore,
}
use pocket_id.OneTimeAccess.TokenActor.Redeeming.{Answers}
use pocket_id.OneTimeAccess.TokenActor.Traces.{
  consume-Answers, restore-consume, done, again, redeemed_once,
}

abbrev stored : TokenState
stored = record { user_id = "u1"; device_token = some "d"; expires_at = 100 }

abbrev answer : ConsumeStatus → TokenState → ConsumeResponse
answer c s = record { status = c; state = s }

consume_test :
    consume (memory zero_state) (some (ok "d")) (stored, 7)
    ≡ (ok (answer consumed stored), (zero_state, 8))
unfolding consume consume_with is_missing redeem ◌>>=◌
consume_test = refl

mismatch_test :
    consume (memory zero_state) (some (ok "e")) (stored, 7)
    ≡ (ok (answer device_mismatch zero_state), (stored, 8))
unfolding consume consume_with is_missing redeem ◌>>=◌
mismatch_test = refl

expired_test :
    consume (memory zero_state) (some (ok "d")) (stored, 100)
    ≡ (ok (answer not_found zero_state), (stored, 101))
unfolding consume consume_with is_missing redeem ◌>>=◌
expired_test = refl

gone_test :
    consume (memory zero_state) (some (ok "d")) (zero_state, 8)
    ≡ (ok (answer not_found zero_state), (zero_state, 8))
unfolding consume consume_with is_missing ◌>>=◌
gone_test = refl

restore_test : restore (memory zero_state) (some (ok stored)) (zero_state, 8) ≡ (ok tt, (stored, 9))
unfolding restore ◌>>=◌
restore_test = refl

consume-Answers_test :
    Answers (memory-IsStore zero_state) 7 stored "d" (answer consumed stored) (zero_state, 8)
consume-Answers_test =
    consume-Answers (memory-IsStore zero_state) "d" (stored, 7) (zero_state, 8) _ consume_test

restore-consume_example : (stored ≡ stored) ⊎ (100 ≤ 9)
restore-consume_example =
    restore-consume (memory-IsStore zero_state) "d" (stored, 7) (zero_state, 8) (stored, 9) stored
      consume_test restore_test

redeemed_once_example : not_found ≢ consumed
unfolding consume consume_with is_missing ◌>>=◌
redeemed_once_example =
    redeemed_once (memory-IsStore zero_state) "d" "d" (stored, 7) (zero_state, 8) (zero_state, 8)
      (zero_state, 8) (answer consumed stored) (answer not_found zero_state) consume_test refl
      (again "e" done) gone_test
