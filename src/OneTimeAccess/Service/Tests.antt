-- ===== src/OneTimeAccess/Service/Tests.antt =====
-- An exchange of a code whose user is disabled. The world counts the restored codes.
use pocket_id.Prelude.{ℕ, suc, true, none, some, ◌≡◌, refl}
use pocket_id.AppError.{user_disabled}
use pocket_id.Result.{ok, err}
use pocket_id.Exec.{◌>>=◌}
use pocket_id.DeviceLogin.Service.{SignIn}
use pocket_id.OneTimeAccess.TokenActor.{consumed, TokenState}
use pocket_id.OneTimeAccess.Service.{Services, complete_token_exchange, on_answer, exchange_token}
use pocket_id.OneTimeAccess.Service.Outcomes.{Outcome, exchange_token-Outcome}

abbrev code : TokenState
code = record { user_id = "u"; device_token = none; expires_at = 100 }

abbrev sign_in : SignIn
sign_in = record { ip_address = ""; user_agent = ""; user_id = ""; browser_token = "" }

abbrev services : Services ℕ
services = record {
  consume = λ t d w. (ok (record { status = consumed; state = code }), w);
  restore = λ t s w. suc w;
  find_user = λ id w. (ok (some (record { id = id; disabled = true })), w);
  generate_access_token = λ u m d w. (ok "jwt", w);
  create_sign_in = λ s w. ("b", w);
  notify = λ w. w;
  store_token = λ u d w. (ok "t", w);
}

exchanging : exchange_token services "t" "" 60 sign_in 0 ≡ (err user_disabled, 1)
unfolding exchange_token on_answer complete_token_exchange ◌>>=◌
exchanging = refl

exchange_token-Outcome_example : Outcome services "t" "" 60 sign_in 0 (err user_disabled) 1
exchange_token-Outcome_example =
    exchange_token-Outcome services "t" "" 60 sign_in 0 1 (err user_disabled) exchanging
