-- ===== src/DeviceLogin/Service/Tests.antt =====
-- The device login service with actors that approve every request.
use pocket_id.Prelude.{ℕ, String, false, ◌≡◌, some, refl}
use pocket_id.Result.{ok}
use pocket_id.Exec.{◌>>=◌}
use pocket_id.DeviceLogin.RequestActor.{
  approved, pending, ResultCode, Reply, creates, decides, reply,
}
use pocket_id.DeviceLogin.Service.{
  Account, Opened, SignIn, Services, timed_out, signed_in, check_result, attempts, create_request,
  consumed_at, prove, with_rollback, consume_reauthentication_proof, decide_request, admitted_user,
  load_exchange_user, logged, mint, on_status, poll_once, polling, exchange,
}
use pocket_id.DeviceLogin.Service.Guarantees.{
  Accepted, Fresh, Consumed, create_request-Accepted, decide_request-Fresh, exchange-Consumed,
}

abbrev account : Account
account = record { id = "u1"; disabled = false }

-- the world counts the calls of the clock
abbrev services : Services String ℕ
services = record {
  random_token = λ w. (ok "secret", w);
  new_user_code = λ w. (ok "PABCDEFG", w);
  sha256 = λ s. s;
  call = λ code c w. elim c [
    | creates input ↦ (ok (reply ResultCode.none pending 5), w)
    | decides input ↦ (ok (reply ResultCode.none approved 5), w)
    | _ ↦ (ok (record (reply ResultCode.none approved 5) { user_id = "u1" }), w)
  ];
  now = λ w. (w, w);
  begin_transaction = λ w. (ok tt, w);
  commit_transaction = λ w. (ok tt, w);
  rollback = λ w. w;
  consume_reauthentication_token = λ token user w. (ok 3, w);
  find_user = λ id w. (ok (some account), w);
  map_user = λ user w. (ok "dto", w);
  generate_access_token = λ user method duration w. (ok "access", w);
  create_sign_in = λ s w. (some "browser", w);
  notify = λ w. w;
}

abbrev request : Opened
request = record { code = "PABCDEFG"; status = pending; expires_at = 5; device_token = "secret" }

abbrev sign_in : SignIn
sign_in = record { ip_address = "10.0.0.1"; user_agent = "tv"; user_id = ""; browser_token = "" }

create_test : create_request services "10.0.0.1" "tv" 7 ≡ (ok request, 7)
unfolding create_request attempts check_result ◌>>=◌
create_test = refl

decide_test : decide_request services "PABCDEFG" "approve" "u1" "proof" 7 ≡ (ok tt, 7)
unfolding decide_request consume_reauthentication_proof with_rollback prove consumed_at check_result
    ◌>>=◌
decide_test = refl

exchange_test :
    exchange services 2 timed_out "PABCDEFG" "secret" 60 sign_in 7
    ≡ (ok (signed_in "dto" "access" "browser" approved), 7)
unfolding exchange polling poll_once on_status mint load_exchange_user admitted_user logged
    check_result ◌>>=◌
exchange_test = refl

create_request-Accepted_example :
    (v : ℕ) × (services.random_token 7 ≡ (ok "secret", v))
    × Accepted services "secret" "10.0.0.1" "tv" request
create_request-Accepted_example =
    create_request-Accepted services "10.0.0.1" "tv" 7 7 request create_test

decide_request-Fresh_example :
    (v : ℕ) × (r : Reply) × Fresh services "proof" "u1" 7 v
    × (services.call "PABCDEFG" (decides (record { decision = "approve"; user_id = "u1" })) v
        ≡ (ok r, 7))
    × (r.code ≡ ResultCode.none)
decide_request-Fresh_example = decide_request-Fresh services "PABCDEFG" "u1" "proof" 7 7 decide_test

exchange-Consumed_example :
    Consumed services "PABCDEFG" "secret" 60 sign_in "dto" "access" "browser" approved 7 7
exchange-Consumed_example =
    exchange-Consumed services 2 timed_out "PABCDEFG" "secret" 60 sign_in 7 7 "dto" "access"
      "browser" approved exchange_test
