-- ===== src/EmailVerification/Tests.antt =====
-- Runs of one email verification over a host in memory.
use pocket_id.Prelude.{ℕ, ◌≤◌, ◌≡◌, ◌⊎◌, some, refl, arith, eq_iff}
use pocket_id.Result.{ok}
use pocket_id.Exec.{◌>>=◌}
use pocket_id.Actor.Memory.{memory, memory-IsStore}
use pocket_id.EmailVerification.VerificationActor.{
  ConsumeStatus, consumed, not_found, State, zero_state, ConsumeResponse, decoded, set_state,
  get_state, mismatches, take, consume_hash, consume, discard_from, discard, restore_over, restore,
  issue, pending_change, pending_from,
}
use pocket_id.EmailVerification.VerificationActor.Verdicts.{
  Verdicts, consume-Verdicts, discard-State, restore_after_consume,
}

abbrev stored : State
stored = record {
  token_hash = "h";
  email = "new@example.com";
  replaces_email = "old@example.com";
  expires_at = 100;
}

abbrev answer : ConsumeStatus → State → ConsumeResponse
answer c s = record { status = c; state = s }

issue_test : issue (memory zero_state) (some (ok stored)) (zero_state, 3) ≡ (ok tt, (stored, 4))
unfolding issue decoded set_state ◌>>=◌
issue_test = refl

pending_change_test :
    pending_change (memory zero_state) (stored, 4)
    ≡ (ok (record { email = "new@example.com"; expires_at = 100 }), (stored, 5))
unfolding pending_change pending_from get_state ◌>>=◌
pending_change_test = refl

consume_test :
    consume (memory zero_state) (some (ok "h")) (stored, 5)
    ≡ (ok (answer consumed stored), (zero_state, 6))
unfolding consume consume_hash decoded mismatches take get_state ◌>>=◌
consume_test = refl

wrong_test :
    consume (memory zero_state) (some (ok "x")) (stored, 5)
    ≡ (ok (answer not_found zero_state), (stored, 6))
unfolding consume consume_hash decoded mismatches get_state ◌>>=◌
wrong_test = refl

discard_test : discard (memory zero_state) (some (ok "x")) (stored, 6) ≡ (ok tt, (stored, 6))
unfolding discard decoded get_state discard_from ◌>>=◌
discard_test = refl

restore_test : restore (memory zero_state) (some (ok stored)) (zero_state, 6) ≡ (ok tt, (stored, 7))
unfolding restore decoded restore_over get_state set_state ◌>>=◌
restore_test = refl

consume-Verdicts_example :
    Verdicts (memory-IsStore zero_state) 5 stored "h" (answer consumed stored) (zero_state, 6)
consume-Verdicts_example =
    consume-Verdicts (memory-IsStore zero_state) "h" (stored, 5) (zero_state, 6)
      (answer consumed stored) consume_test

discard-State_test : (stored ≡ stored) ⊎ (stored ≡ zero_state)
discard-State_test =
    discard-State (memory-IsStore zero_state) "x" (stored, 6) (stored, 6)
      (λ e. ground (arith, eq_iff "h" "x")) discard_test

restore_after_consume_test : (stored ≡ stored) ⊎ ((n : ℕ) × (6 ≤ n) × (100 ≤ n))
restore_after_consume_test =
    restore_after_consume (memory-IsStore zero_state) "h" (stored, 5) (zero_state, 6) (stored, 7)
      stored consume_test restore_test
