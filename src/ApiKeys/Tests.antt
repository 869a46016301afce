-- ===== src/ApiKeys/Tests.antt =====
-- The renewal and the use of a key at concrete inputs. The world is the clock; a commit takes a second.
use pocket_id.Prelude.{ℕ, suc, String, false, none, some, ltb, ◌==◌, ◌≡◌, refl, if◌then◌else◌}
use pocket_id.Result.{ok, err}
use pocket_id.Exec.{◌>>=◌}
use pocket_id.ApiKeys.{
  ApiKey, duplicated, inserted, Services, renewed, api_key_not_expired, name_in_use,
  invalid_api_key, api_key_not_found, create_api_key, renew_inside, renew_api_key, revoke_api_key,
  validate_stored, validate_api_key,
}
use pocket_id.ApiKeys.Guarantees.{Renewed, renew_api_key-Renewed}

abbrev backup : ApiKey
backup = record {
  id = "k";
  name = "backup";
  key = "old";
  description = none;
  expires_at = 50;
  last_used_at = some 20;
  expiration_email_sent = false;
  user_id = "u";
}

abbrev services : Services String ℕ
services = record {
  now = λ w. (w, w);
  random_string = λ n w. (ok "new", w);
  sha256 = λ s. s;
  begin_transaction = λ w. w;
  commit_transaction = λ w. (ok tt, suc w);
  rollback = λ w. w;
  insert_key = λ k w. if k.name == "backup" then (duplicated, w) else (inserted k, w);
  find_key = λ i u w. (ok (if i == "k" then some backup else none), w);
  save_key = λ k w. (ok tt, w);
  delete_keys = λ i u w. (ok (if i == "k" then 1 else 0), w);
  use_key = λ h t w. (ok (if ltb t 50 then some (backup, "ann") else none), w);
  mark_sent = λ i w. (ok tt, w);
  find_user = λ i w. (ok none, w);
  create_user = λ u w. (ok u.username, w);
  delete_user = λ i w. (ok tt, w);
}

renewing : renew_api_key services "u" "k" 99 60 ≡ (ok (renewed services backup 99 "new", "new"), 61)
unfolding renew_api_key renew_inside ◌>>=◌
renewing = refl

too_early : renew_api_key services "u" "k" 99 40 ≡ (err api_key_not_expired, 40)
unfolding renew_api_key renew_inside ◌>>=◌
too_early = refl

taken_name :
    create_api_key services "u" (record { name = "backup"; description = none; expires_at = 99 }) 60
    ≡ (err name_in_use, 60)
unfolding create_api_key ◌>>=◌
taken_name = refl

unknown_key : revoke_api_key services "u" "j" 60 ≡ (err api_key_not_found, 60)
unfolding revoke_api_key ◌>>=◌
unknown_key = refl

expired_key : validate_api_key services "static" "old" 60 ≡ (err invalid_api_key, 60)
unfolding validate_api_key validate_stored ◌>>=◌
expired_key = refl

renew_api_key-Renewed_example :
    Renewed services "u" "k" 99 60 (renewed services backup 99 "new") "new" 61
renew_api_key-Renewed_example =
    renew_api_key-Renewed services "u" "k" 99 (renewed services backup 99 "new") "new" 60 61
      renewing
