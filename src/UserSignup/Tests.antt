-- ===== src/UserSignup/Tests.antt =====
-- Runs of one signup token over a host in memory.
use pocket_id.Prelude.{ℕ, ◌+◌, ◌≤◌, String, true, ◌≡◌, ◌⊎◌, List, [], ◌∷◌, some, refl, arith}
use pocket_id.Result.{ok}
use pocket_id.Exec.{◌>>=◌}
use pocket_id.Actor.Memory.{memory, memory-IsStore}
use pocket_id.UserSignup.SignupTokenActor.{
  ConsumeStatus, consumed, limit_reached, SignupTokenState, zero_state, ConsumeResponse, set_state,
  get_state, is_missing, use_once, consume, release, release_on, create, create_checked,
}
use pocket_id.UserSignup.SignupTokenActor.Uses.{Uses}
use pocket_id.UserSignup.SignupTokenActor.Limits.{
  consume-Uses, done, admitted, refused, admitted-le-limit,
}
use pocket_id.UserSignup.SignupTokenActor.Compensation.{release-consume}

-- a token for one user, used `n` times
abbrev token : ℕ → SignupTokenState
token n = record {
  id = "t";
  usage_limit = 1;
  usage_count = n;
  user_group_ids = "g" ∷ [];
  created_at = 0;
  expires_at = 100;
}

abbrev answer : ConsumeStatus → List String → ConsumeResponse
answer status ids = record { status = status; user_group_ids = ids }

create_test :
    create (memory zero_state) (some (ok (token 0))) true (zero_state, 3) ≡ (ok tt, (token 0, 4))
unfolding create create_checked set_state get_state ◌>>=◌
create_test = refl

consume_test :
    consume (memory zero_state) (token 0, 4) ≡ (ok (answer consumed ("g" ∷ [])), (token 1, 6))
unfolding consume is_missing use_once set_state get_state ◌>>=◌
consume_test = refl

again_test : consume (memory zero_state) (token 1, 6) ≡ (ok (answer limit_reached []), (token 1, 7))
unfolding consume is_missing use_once get_state ◌>>=◌
again_test = refl

release_test : release (memory zero_state) (token 1, 6) ≡ (ok tt, (token 0, 7))
unfolding release release_on set_state get_state ◌>>=◌
release_test = refl

-- A use that is checked at the token's end is admitted and not recorded.
late_test :
    consume (memory zero_state) (token 0, 99) ≡ (ok (answer consumed ("g" ∷ [])), (token 0, 101))
unfolding consume is_missing use_once set_state get_state ◌>>=◌
late_test = refl

consume-Uses_example :
    Uses (memory-IsStore zero_state) 4 (token 0) (answer consumed ("g" ∷ [])) (token 1, 6)
consume-Uses_example =
    consume-Uses (memory-IsStore zero_state) (token 0, 4) (token 1, 6) (answer consumed ("g" ∷ []))
      consume_test

admitted-le-limit_example : 0 + 1 ≤ 1
admitted-le-limit_example =
    admitted-le-limit (memory-IsStore zero_state) {k = 1} {w = (token 0, 4)} {w' = (token 1, 7)}
      (admitted (answer consumed ("g" ∷ [])) consume_test refl
        (refused (answer limit_reached []) again_test (λ e. cc) done))
      (omega arith) (omega arith)

release-consume_example : (token 0 ≡ token 0) ⊎ (token 0 ≡ zero_state)
release-consume_example =
    release-consume (memory-IsStore zero_state) (token 0, 4) (token 1, 6) (token 0, 7)
      (answer consumed ("g" ∷ [])) consume_test refl release_test (omega arith)
