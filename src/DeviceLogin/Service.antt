-- ===== src/DeviceLogin/Service.antt =====
-- backend/internal/devicelogin/service.go: what a device and a signed-in user ask of the request
-- actors. Randomness, hashing, the actors' host, the database, the signer and the audit log are the
-- operations of `Services`. Of `Exchange`'s results an error comes without the status beside it.
pub mod Guarantees
mod Tests
use pocket_id.Prelude.{
  ℕ, zero, suc, ◌-◌, ◌≤◌, String, Bool, true, false, not, ◌&&◌, ◌||◌, Option, none, some, ◌==◌, leb,
  ltb, eqb, if◌then◌else◌,
}
use pocket_id.AppError.{
  Error, plain, is_code, device_login_expired, device_login_denied, reauthentication_required,
  user_disabled,
}
use pocket_id.Result.{Result, ok, err}
use pocket_id.Exec.{Exec, pure, raise, wrapping, ◌>>=◌, ◌>>◌}
use pocket_id.Actor.{minute}
use pocket_id.DeviceLogin.RequestActor.{
  RequestStatus, unset, pending, approved, denied, ResultCode, none, collision, invalid, denied,
  Reply, CreateInput, DecisionInput, Call, creates, decides, polls, consumes,
}

-- model.User, as far as `Exchange` reads it
pub record Account : Type 0 where
  pub id : String
  pub disabled : Bool

-- `Request` with the device token beside it
pub record Opened : Type 0 where
  pub code : String
  pub status : RequestStatus
  pub expires_at : ℕ
  pub device_token : String

pub record SignIn : Type 0 where
  pub ip_address : String
  pub user_agent : String
  pub user_id : String
  pub browser_token : String

-- dto.UserDto is `D`
pub record Services (D W : Type 0) : Type 0 where
  pub random_token : Exec W String
  pub new_user_code : Exec W String
  pub sha256 : String → String
  -- `Invoke` or `Peek` of the actor with the ID, with the decoded reply
  pub call : String → Call → Exec W Reply
  pub now : W → ℕ × W
  pub begin_transaction : Exec W (Unit {0})
  pub commit_transaction : Exec W (Unit {0})
  pub rollback : W → W
  pub consume_reauthentication_token : String → String → Exec W ℕ
  -- gorm's `First`, none where no user has the ID
  pub find_user : String → Exec W (Option Account)
  pub map_user : Account → Exec W D
  pub generate_access_token : Account → String → ℕ → Exec W String
  -- the token of the known browser, none where no audit log was created
  pub create_sign_in : SignIn → W → Option String × W
  pub notify : W → W

-- how the wait between two polls ends for good, after some ticks of the ticker
pub data Ending : Type 0 where
  timed_out : Ending
  cancelled : Error → Ending

pub data Exchanged (D : Type 0) : Type 0 where
  signed_in : D → String → String → RequestStatus → Exchanged D
  still_pending : Exchanged D

-- `reauthenticationMaxAge`
abbrev pub reauthentication_max_age : ℕ
reauthentication_max_age = minute

module _ {D W : Type 0} (services : Services D W) where
  -- `actorResultError`
  unfoldable pub check_result : ResultCode → Exec W (Unit {0})
  check_result ResultCode.none = pure tt
  check_result collision = raise (plain "unexpected live device login actor collision")
  check_result invalid = raise device_login_expired
  check_result ResultCode.denied = raise device_login_denied

  abbrev pub is_collision : ResultCode → Bool
  is_collision c = elim c [ collision ↦ true | _ ↦ false ]

  abbrev pub opened : String → String → Reply → Opened
  opened code token r = record {
    code = code;
    status = r.status;
    expires_at = r.expires_at;
    device_token = token;
  }

  abbrev pub input_of : String → String → String → String → CreateInput
  input_of code token ip agent = record {
    code = code;
    device_token_hash = services.sha256 token;
    ip_address = ip;
    user_agent = agent;
  }

  -- the attempts that `Create` has left
  unfoldable pub attempts : ℕ → String → String → String → Exec W Opened
  attempts zero token ip agent = raise (plain "failed to generate a unique device login code")
  attempts (suc n) token ip agent = do
    code ← services.new_user_code
    r ← services.call code (creates (input_of code token ip agent))
    if is_collision r.code
        then attempts n token ip agent
        else do check_result r.code; pure (opened code token r)

  unfoldable pub create_request : String → String → Exec W Opened
  create_request ip agent = do token ← services.random_token; attempts 3 token ip agent

  abbrev pub renamed : Result ℕ × W → Result ℕ × W
  renamed (ok t, w) = (ok t, w)
  renamed (err e, w) =
      (err (if is_code e "reauthentication_required" then reauthentication_required else e), w)

  unfoldable pub consumed_at : String → String → Exec W ℕ
  consumed_at token user_id w = renamed (services.consume_reauthentication_token token user_id w)

  abbrev pub current_time : Exec W ℕ
  current_time w = let (t, w') = services.now w in (ok t, w')

  -- between `Begin` and the deferred `Rollback`
  unfoldable pub prove : String → String → Exec W (Unit {0})
  prove token user_id = do
    at ← consumed_at token user_id
    t ← current_time
    if ltb reauthentication_max_age (t - at)
        then raise reauthentication_required
        else wrapping "error committing database transaction" services.commit_transaction

  unfoldable pub with_rollback : Exec W (Unit {0}) → Exec W (Unit {0})
  with_rollback m w = let (r, w') = m w in (r, services.rollback w')

  unfoldable pub consume_reauthentication_proof : String → String → Exec W (Unit {0})
  consume_reauthentication_proof token user_id =
      if token == ""
      then raise reauthentication_required
      else do services.begin_transaction; with_rollback (prove token user_id)

  -- `Decide`, for a code that `normalizeUserCode` returned
  unfoldable pub decide_request : String → String → String → String → Exec W (Unit {0})
  decide_request code decision user_id token = do
    if decision == "approve" then consume_reauthentication_proof token user_id else pure tt
    r ← services.call code (decides (record { decision = decision; user_id = user_id }))
    check_result r.code

  unfoldable pub admitted_user : Option Account → Exec W (Account × D)
  admitted_user Option.none = raise device_login_expired
  admitted_user (some user) = if user.disabled then raise user_disabled else do
    dto ← wrapping "failed to map exchanged device login user" (services.map_user user)
    pure (user, dto)

  unfoldable pub load_exchange_user : String → Exec W (Account × D)
  load_exchange_user user_id = do found ← services.find_user user_id; admitted_user found

  unfoldable pub logged : D → String → RequestStatus → Option String × W → Result (Exchanged D) × W
  logged dto token status (Option.none, w) =
      (err (plain "failed to create device login audit log"), w)
  logged dto token status (some browser, w) =
      (ok (signed_in dto token browser status), services.notify w)

  -- the case of an approved request
  unfoldable pub mint : String → String → String → ℕ → SignIn → Exec W (Exchanged D)
  mint request_id hash user_id duration sign_in = do
    (user, dto) ← load_exchange_user user_id
    r ← services.call request_id (consumes hash)
    check_result r.code
    token ← services.generate_access_token user "otp" duration
    λ w.
        logged dto token r.status (services.create_sign_in (record sign_in { user_id = user.id }) w)

  unfoldable pub waiting : Ending → Exec W (Exchanged D)
  waiting timed_out = pure still_pending
  waiting (cancelled e) = raise e

  -- the cases of one round, with what follows where the request is pending
  unfoldable pub on_status :
      RequestStatus → Exec W (Exchanged D) → Exec W (Exchanged D) → Exec W (Exchanged D)
  on_status approved minted next = minted
  on_status pending minted next = next
  on_status RequestStatus.denied minted next = raise device_login_denied
  on_status unset minted next = raise device_login_expired

  unfoldable pub poll_once :
      Exec W (Exchanged D) → String → String → ℕ → SignIn → Exec W (Exchanged D)
  poll_once next request_id hash duration sign_in = do
    r ← services.call request_id (polls hash)
    check_result r.code
    on_status r.status (mint request_id hash r.user_id duration sign_in) next

  -- the loop: `ticks` more polls after the first one, if the request stays pending
  unfoldable pub polling : ℕ → Ending → String → String → ℕ → SignIn → Exec W (Exchanged D)
  polling zero ending request_id hash duration sign_in =
      poll_once (waiting ending) request_id hash duration sign_in
  polling (suc n) ending request_id hash duration sign_in =
      poll_once (polling n ending request_id hash duration sign_in) request_id hash duration sign_in

  unfoldable pub exchange : ℕ → Ending → String → String → ℕ → SignIn → Exec W (Exchanged D)
  exchange ticks ending request_id device_token duration sign_in =
      if request_id == "" || (device_token == "" || eqb duration 0)
      then raise device_login_expired
      else polling ticks ending request_id (services.sha256 device_token) duration sign_in
