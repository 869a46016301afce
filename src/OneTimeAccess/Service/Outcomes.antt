-- ===== src/OneTimeAccess/Service/Outcomes.antt =====
-- Every way in which an exchange of a login code ends (`ExchangeToken` in
-- backend/internal/onetimeaccess/service.go).
use pocket_id.Prelude.{ℕ, String, false, Option, none, some, ◌≡◌, refl}
use pocket_id.AppError.{
  Error, wrapped, token_invalid_or_expired, device_code_invalid, user_disabled,
}
use pocket_id.Result.{Result, ok, err}
use pocket_id.Exec.{rename, continue, ◌>>=◌}
use pocket_id.Exec.Runs.{steps, bind-Steps, unless_raised}
use pocket_id.DeviceLogin.Service.{Account, SignIn}
use pocket_id.OneTimeAccess.TokenActor.{
  ConsumeStatus, consumed, not_found, device_mismatch, TokenState, ConsumeResponse,
}
use pocket_id.OneTimeAccess.Service.{
  Services, LoginTokens, signed_in, complete_for, complete_token_exchange, compensated, on_answer,
  exchange_token,
}

module _ {W : Type 0} (services : Services W) where
  -- the result and the final state of an exchange that starts at a state
  pub data Outcome (token device_token : String) (duration : ℕ) (sign_in : SignIn) (w : W)
      : Result (Account × LoginTokens) → W → Type 0 where
    -- nothing follows a call of the actor that fails
    unreachable :
        (e : Error) (v : W)
        → services.consume token device_token w ≡ (err e, v)
        → Outcome token device_token duration sign_in w
            (err (wrapped "error invoking one-time access token actor" e))
            v
    unknown :
        (answer : ConsumeResponse) (v : W)
        → services.consume token device_token w ≡ (ok answer, v)
        → answer.status ≡ not_found
        → Outcome token device_token duration sign_in w (err token_invalid_or_expired) v
    wrong_device :
        (answer : ConsumeResponse) (v : W)
        → services.consume token device_token w ≡ (ok answer, v)
        → answer.status ≡ device_mismatch
        → Outcome token device_token duration sign_in w (err device_code_invalid) v
    -- a failure after the code was consumed restores its state
    restored :
        (answer : ConsumeResponse) (e : Error) (v u : W)
        → services.consume token device_token w ≡ (ok answer, v)
        → answer.status ≡ consumed
        → complete_token_exchange services answer.state duration sign_in v ≡ (err e, u)
        → Outcome token device_token duration sign_in w
            (err e)
            (services.restore token answer.state u)
    -- the user of the code, who exists and is not disabled, gets a token and the record of a sign-in
    exchanged :
        (answer : ConsumeResponse) (user : Account) (jwt browser : String) (v u x y : W)
        → services.consume token device_token w ≡ (ok answer, v)
        → answer.status ≡ consumed
        → services.find_user answer.state.user_id v ≡ (ok (some user), u)
        → user.disabled ≡ false
        → services.generate_access_token user "otp" duration u ≡ (ok jwt, x)
        → services.create_sign_in (record sign_in { user_id = user.id }) x ≡ (browser, y)
        → Outcome token device_token duration sign_in w
            (ok (user, record { access_token = jwt; known_browser_token = browser }))
            (services.notify y)

  -- the end of an exchange that succeeded
  data Ended (state : TokenState) (duration : ℕ) (sign_in : SignIn) (v : W)
      : Account → LoginTokens → W → Type 0 where
    ended :
        (user : Account) (jwt browser : String) (u x y : W)
        → services.find_user state.user_id v ≡ (ok (some user), u)
        → user.disabled ≡ false
        → services.generate_access_token user "otp" duration u ≡ (ok jwt, x)
        → services.create_sign_in (record sign_in { user_id = user.id }) x ≡ (browser, y)
        → Ended state duration sign_in v user
            (record { access_token = jwt; known_browser_token = browser })
            (services.notify y)

  complete_token_exchange-Ended :
      (state : TokenState) (duration : ℕ) (sign_in : SignIn) (user : Account) (tokens : LoginTokens)
      (v z : W)
      → complete_token_exchange services state duration sign_in v ≡ (ok (user, tokens), z)
      → Ended state duration sign_in v user tokens z
  unfolding complete_token_exchange
  complete_token_exchange-Ended state duration sign_in user tokens v z h =
      elim (bind-Steps _ _ v (user, tokens) z h) [ steps found u read last ↦ go found u read last ]
    where
      issued :
          (other : Account) (u x : W) (jwt : String) (c : String × W)
          → services.find_user state.user_id v ≡ (ok (some other), u)
          → other.disabled ≡ false
          → services.generate_access_token other "otp" duration u ≡ (ok jwt, x)
          → services.create_sign_in (record sign_in { user_id = other.id }) x ≡ c
          → signed_in services other jwt c ≡ (ok (user, tokens), z)
          → Ended state duration sign_in v user tokens z
      issued other u x jwt (browser, y) read on made created done =
          let made_tokens : LoginTokens = record {
            access_token = jwt;
            known_browser_token = browser;
          } in
          let same : other ≡ user = cc in
          let same_tokens : made_tokens ≡ tokens = cc in
          let same_state : services.notify y ≡ z = cc in
          rw (← same, ← same_tokens, ← same_state)
            (ended other jwt browser u x y read on made created)

      go :
          (found : Option Account) (u : W)
          → services.find_user state.user_id v ≡ (ok found, u)
          → complete_for services found duration sign_in u ≡ (ok (user, tokens), z)
          → Ended state duration sign_in v user tokens z
      go none u read last = cc
      go (some other) u read last =
          let (on, last') = unless_raised other.disabled user_disabled _ u z (user, tokens) last in
          elim (bind-Steps _ _ u (user, tokens) z last') [
            | steps jwt x made done ↦ issued other u x jwt _ read on made refl done
          ]

  -- Every exchange of a code ends in one of these ways: the actor failed, or did not know the code, or
  -- the device was another, and nothing else happened; or the code was consumed, and either its
  -- completion failed and then the state of the code is restored, or its user, who exists and is
  -- not disabled, gets an access token and the record of a sign-in, and nothing follows but the
  -- notification.
  pub exchange_token-Outcome :
      (token device_token : String) (duration : ℕ) (sign_in : SignIn) (w z : W)
      (r : Result (Account × LoginTokens))
      → exchange_token services token device_token duration sign_in w ≡ (r, z)
      → Outcome token device_token duration sign_in w r z
  unfolding exchange_token on_answer ◌>>=◌
  exchange_token-Outcome token device_token duration sign_in w z r h =
      go (services.consume token device_token w) refl h
    where
      exchanged_by :
          (answer : ConsumeResponse) (user : Account) (tokens : LoginTokens) (v u : W)
          → services.consume token device_token w ≡ (ok answer, v)
          → answer.status ≡ consumed
          → Ended answer.state duration sign_in v user tokens u
          → Outcome token device_token duration sign_in w (ok (user, tokens)) u
      exchanged_by answer user tokens v u asked is
            (ended owner jwt browser x y n found enabled made created) =
          exchanged answer owner jwt browser v x y n asked is found enabled made created

      after :
          (answer : ConsumeResponse) (v : W)
          → services.consume token device_token w ≡ (ok answer, v)
          → answer.status ≡ consumed
          → (c : Result (Account × LoginTokens) × W)
          → complete_token_exchange services answer.state duration sign_in v ≡ c
          → compensated services token answer.state c ≡ (r, z)
          → Outcome token device_token duration sign_in w r z
      after answer v asked is (err e, u) done k =
          let same_r : err e ≡ r = cc in
          let same_z : services.restore token answer.state u ≡ z = cc in
          rw (← same_r, ← same_z) (restored answer e v u asked is done)
      after answer v asked is (ok (user, tokens), u) done k =
          let same_r : ok (user, tokens) ≡ r = cc in
          let same_z : u ≡ z = cc in
          rw (← same_r, ← same_z)
            (exchanged_by answer user tokens v u asked is
              (complete_token_exchange-Ended answer.state duration sign_in user tokens v u done))

      verdict :
          (answer : ConsumeResponse) (v : W) (s : ConsumeStatus)
          → services.consume token device_token w ≡ (ok answer, v)
          → answer.status ≡ s
          → on_answer services s token answer.state duration sign_in v ≡ (r, z)
          → Outcome token device_token duration sign_in w r z
      verdict answer v not_found asked is k =
          let same_r : err token_invalid_or_expired ≡ r = cc in
          let same_z : v ≡ z = cc in rw (← same_r, ← same_z) (unknown answer v asked is)
      verdict answer v device_mismatch asked is k =
          let same_r : err device_code_invalid ≡ r = cc in
          let same_z : v ≡ z = cc in rw (← same_r, ← same_z) (wrong_device answer v asked is)
      verdict answer v consumed asked is k =
          after answer v asked is (complete_token_exchange services answer.state duration sign_in v)
            refl k

      go :
          (c : Result ConsumeResponse × W)
          → services.consume token device_token w ≡ c
          → continue
              (rename "error invoking one-time access token actor" c)
              (λ answer. on_answer services answer.status token answer.state duration sign_in)
            ≡ (r, z)
          → Outcome token device_token duration sign_in w r z
      go (err e, v) asked k =
          let same_r : err (wrapped "error invoking one-time access token actor" e) ≡ r = cc in
          let same_z : v ≡ z = cc in rw (← same_r, ← same_z) (unreachable e v asked)
      go (ok answer, v) asked k = verdict answer v answer.status asked refl k
