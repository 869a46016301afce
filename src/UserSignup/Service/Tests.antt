-- ===== src/UserSignup/Service/Tests.antt =====
-- A signup with a token, where the name is taken. The world counts the released tokens.
use pocket_id.Prelude.{ℕ, suc, String, false, [], ◌∷◌, ◌≡◌, refl}
use pocket_id.AppError.{plain}
use pocket_id.Result.{ok, err}
use pocket_id.Exec.{◌>>=◌}
use pocket_id.UserSignup.SignupTokenActor.{consumed}
use pocket_id.UserSignup.Service.{
  Services, create_inside, create_signed_up_user, sign_up_with, consume_token, sign_up,
}
use pocket_id.UserSignup.Service.Outcomes.{Outcome, sign_up-Outcome}

abbrev services : Services String String ℕ
services = record {
  consume = λ t w. (ok (record { status = consumed; user_group_ids = "g" ∷ [] }), w);
  release = λ t w. suc w;
  begin_transaction = λ w. w;
  commit_transaction = λ w. (ok tt, w);
  rollback = λ w. w;
  create_user = λ d gs w. (err (plain "taken"), w);
  is_pending = λ u. false;
  set_deadline = λ u w. (ok u, w);
  generate_access_token = λ u w. (ok "jwt", w);
  create_audit_log = λ u t w. w;
  schedule_sync = λ w. w;
  send_verification = λ u w. w;
}

signing_up : sign_up services false "ann" "t" 0 ≡ (err (plain "taken"), 1)
unfolding sign_up consume_token sign_up_with create_signed_up_user create_inside ◌>>=◌
signing_up = refl

sign_up-Outcome_example : Outcome services false "ann" "t" 0 (err (plain "taken")) 1
sign_up-Outcome_example =
    sign_up-Outcome services false "ann" "t" 0 1 (err (plain "taken")) signing_up
