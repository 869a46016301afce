-- ===== src/DeviceLogin/Service/Guarantees.antt =====
-- What a success of the device login service tells: a created request is one that its actor opened,
-- an approval rests on a fresh reauthentication, and a sign-in on a consumed request
-- (backend/internal/devicelogin/service.go).
use pocket_id.Prelude.{
  ℕ, zero, suc, ◌-◌, ◌≤◌, String, false, Option, some, ◌==◌, ◌||◌, eqb, ltb, if◌then◌else◌, ◌≡◌,
  ◌≢◌, ◌⊎◌, refl, sym, ap, ◌∙◌, subst, arith, eq_iff, inl, inr,
}
use pocket_id.Result.{Result, ok, err}
use pocket_id.Exec.{Exec, pure, wrapping, rename, ◌>>=◌}
use pocket_id.Exec.Runs.{steps, bind-Steps, unless_raised}
use pocket_id.AppError.{user_disabled, device_login_expired, reauthentication_required}
use pocket_id.DeviceLogin.RequestActor.{
  RequestStatus, unset, pending, approved, ResultCode, collision, invalid, Reply, creates, decides,
  polls, consumes,
}
use pocket_id.Actor.{minute}
use pocket_id.DeviceLogin.Service.{
  current_time, Account, Opened, SignIn, Services, Ending, timed_out, cancelled, Exchanged,
  signed_in, reauthentication_max_age, check_result, renamed, opened, attempts, create_request,
  consumed_at, prove, with_rollback, consume_reauthentication_proof, decide_request, admitted_user,
  is_collision, load_exchange_user, logged, mint, waiting, on_status, poll_once, polling, exchange,
}

module _ {D W : Type 0} (services : Services D W) where
  checked :
      (c : ResultCode) (w w' : W) → check_result services c w ≡ (ok tt, w') → c ≡ ResultCode.none
  unfolding check_result
  checked ResultCode.none w w' h = refl
  checked collision w w' h = cc
  checked invalid w w' h = cc
  checked ResultCode.denied w w' h = cc

  check_result-state :
      (c : ResultCode) (w w' : W) → check_result services c w ≡ (ok tt, w') → w ≡ w'
  unfolding check_result
  check_result-state ResultCode.none w w' h = ground arith
  check_result-state collision w w' h = cc
  check_result-state invalid w w' h = cc
  check_result-state ResultCode.denied w w' h = cc

  -- some call of an actor accepted the request under the code that is returned
  pub data Accepted (token ip agent : String) (o : Opened) : Type 0 where
    accepted :
        (code : String) (r : Reply) (v v' : W)
        → services.call code
            (creates (record {
              code = code;
              device_token_hash = services.sha256 token;
              ip_address = ip;
              user_agent = agent;
            }))
            v
          ≡ (ok r, v')
        → r.code ≡ ResultCode.none
        → o ≡ record {
          code = code;
          status = r.status;
          expires_at = r.expires_at;
          device_token = token;
        }
        → Accepted token ip agent o

  Accepted-device_token :
      (token ip agent : String) (o : Opened) → Accepted token ip agent o → token ≡ o.device_token
  Accepted-device_token token ip agent o (accepted code r v v' called fine is) =
      sym (ap (λ (x : Opened). x.device_token) is)

  answered :
      (c : ResultCode) (n : ℕ) (token ip agent : String) (p : Opened) (v w' : W) (o : Opened)
      → (if is_collision services c
            then attempts services n token ip agent
            else (check_result services c >>= λ _. pure p))
          v
        ≡ (ok o, w')
      → (c ≡ ResultCode.none × (o ≡ p)) ⊎ (attempts services n token ip agent v ≡ (ok o, w'))
  unfolding check_result ◌>>=◌
  answered ResultCode.none n token ip agent p v w' o h = inl (refl, cc)
  answered collision n token ip agent p v w' o h = inr h
  answered invalid n token ip agent p v w' o h = cc
  answered ResultCode.denied n token ip agent p v w' o h = cc

  attempts-Accepted :
      (n : ℕ) (token ip agent : String) (w w' : W) (o : Opened)
      → attempts services n token ip agent w ≡ (ok o, w')
      → Accepted token ip agent o
  unfolding attempts
  attempts-Accepted zero token ip agent w w' o h = cc
  attempts-Accepted (suc n) token ip agent w w' o h = elim (bind-Steps _ _ w o w' h) [
    | steps code v e rest ↦ elim (bind-Steps _ _ v o w' rest) [
      | steps r u called last ↦
          elim (answered r.code n token ip agent (opened services code token r) u w' o last) [
            | inl (fine, same) ↦ accepted code r v u called fine same
            | inr more ↦ attempts-Accepted n token ip agent u w' o more
          ]
    ]
  ]

  -- What `Create` returns: a device token that was drawn first, and the code, status and end of a request
  -- that the actor under that code opened for the hash of the device token and for the caller's address
  -- and agent; a collision never passes for one.
  pub create_request-Accepted :
      (ip agent : String) (w w' : W) (o : Opened)
      → create_request services ip agent w ≡ (ok o, w')
      → (v : W) × (services.random_token w ≡ (ok o.device_token, v))
        × Accepted o.device_token ip agent o
  unfolding create_request
  create_request-Accepted ip agent w w' o h = elim (bind-Steps _ _ w o w' h) [
    | steps token v drawn rest ↦
        let opening = attempts-Accepted 3 token ip agent v w' o rest in
        let same = Accepted-device_token token ip agent o opening in
        (
          v,
          subst (λ t. services.random_token w ≡ (ok t, v)) same drawn,
          subst (λ t. Accepted t ip agent o) same opening,
        )
  ]

  -- a reauthentication token of the user that was consumed, and by the clock read right after it at
  -- most a minute after it was issued, committed in a transaction
  pub data Fresh (token user_id : String) (w : W) : W → Type 0 where
    fresh :
        (at t : ℕ) (w₁ w₂ w₃ w₄ : W)
        → token ≢ ""
        → services.begin_transaction w ≡ (ok tt, w₁)
        → services.consume_reauthentication_token token user_id w₁ ≡ (ok at, w₂)
        → services.now w₂ ≡ (t, w₃)
        → t - at ≤ minute
        → services.commit_transaction w₃ ≡ (ok tt, w₄)
        → Fresh token user_id w (services.rollback w₄)

  consumed_of :
      (token user_id : String) (v v' : W) (at : ℕ)
      → consumed_at services token user_id v ≡ (ok at, v')
      → services.consume_reauthentication_token token user_id v ≡ (ok at, v')
  unfolding consumed_at
  consumed_of token user_id v v' at h =
      go (services.consume_reauthentication_token token user_id v) h
    where
      go : (r : Result ℕ × W) → renamed services r ≡ (ok at, v') → r ≡ (ok at, v')
      go (ok t, w) e = e
      go (err x, w) e = cc

  read_clock :
      (v : W) (t : ℕ) (v₁ : W) → current_time services v ≡ (ok t, v₁) → services.now v ≡ (t, v₁)
  read_clock v t v₁ h =
      let (x, u) = services.now v in
      let same : x ≡ t = ground arith in
      let same_state : u ≡ v₁ = ground arith in rw (same, same_state)

  unwrapped :
      (message : String) (c : Result (Unit {0}) × W) (v : W)
      → rename message c ≡ (ok tt, v)
      → c ≡ (ok tt, v)
  unwrapped message (ok done, u) v h = h
  unwrapped message (err e, u) v h = cc

  -- what the transaction did
  data Proved (token user_id : String) (w : W) (w' : W) : Type 0 where
    proved :
        (at t : ℕ) (v u : W)
        → services.consume_reauthentication_token token user_id w ≡ (ok at, v)
        → services.now v ≡ (t, u)
        → t - at ≤ minute
        → services.commit_transaction u ≡ (ok tt, w')
        → Proved token user_id w w'

  prove-Proved :
      (token user_id : String) (w w' : W)
      → prove services token user_id w ≡ (ok tt, w')
      → Proved token user_id w w'
  unfolding prove
  prove-Proved token user_id w w' h = elim (bind-Steps _ _ w tt w' h) [
    | steps at v used rest ↦ elim (bind-Steps _ _ v tt w' rest) [
      | steps t u read last ↦
          let (recent, committed) =
            unless_raised (ltb reauthentication_max_age (t - at)) reauthentication_required
              (wrapping "error committing database transaction" services.commit_transaction) u w' tt
              last in
          proved at t v u (consumed_of token user_id w v at used) (read_clock v t u read)
            (ground arith) (unwrapped "error committing database transaction" _ w' committed)
    ]
  ]

  rolled_back :
      (w' : W) (x : Result (Unit {0}) × W)
      → ◌≡◌ {A = Result (Unit {0}) × W} (x.0, services.rollback x.1) (ok tt, w')
      → (u : W) × (x ≡ (ok tt, u)) × (services.rollback u ≡ w')
  rolled_back w' (ok a, u) e = (u, refl, ground arith)
  rolled_back w' (err y, u) e = cc

  proof-Fresh :
      (token user_id : String) (w w' : W)
      → consume_reauthentication_proof services token user_id w ≡ (ok tt, w')
      → Fresh token user_id w w'
  unfolding consume_reauthentication_proof with_rollback
  proof-Fresh token user_id w w' h =
      let (full, m) =
        unless_raised (token == "") reauthentication_required
          (services.begin_transaction >>= λ _.
            with_rollback services (prove services token user_id))
          w w' tt h in
      elim (bind-Steps _ _ w tt w' m) [
        | steps done v begun rest ↦
            let (u, proving, back) = rolled_back w' (prove services token user_id v) rest in
            elim (prove-Proved token user_id v u proving) [
              | proved at t x y used read recent committed ↦ subst (Fresh token user_id w) back (
                  fresh at t v x y u (λ p. ground (arith, eq_iff token "")) begun used read recent
                    committed)
            ]
      ]

  -- An approval that `Decide` reports as done: a reauthentication token of the deciding user was
  -- consumed, and by the clock read after it was at most a minute old, in a transaction that was
  -- committed; then the actor accepted the approval for this user.
  pub decide_request-Fresh :
      (code user_id token : String) (w w' : W)
      → decide_request services code "approve" user_id token w ≡ (ok tt, w')
      → (v : W) × (r : Reply) × Fresh token user_id w v
        × (services.call code (decides (record { decision = "approve"; user_id = user_id })) v
            ≡ (ok r, w'))
        × (r.code ≡ ResultCode.none)
  unfolding decide_request
  decide_request-Fresh code user_id token w w' h = elim (bind-Steps _ _ w tt w' h) [
    | steps done v proving rest ↦ elim (bind-Steps _ _ v tt w' rest) [
      | steps r u called last ↦
          let same : u ≡ w' = check_result-state r.code u w' last in
          (
            v,
            r,
            proof-Fresh token user_id w v proving,
            subst
                (λ x.
                  services.call code (decides (record { decision = "approve"; user_id = user_id }))
                    v
                  ≡ (ok r, x))
                same called,
            checked r.code u w' last,
          )
    ]
  ]

  -- The polls of an exchange that signs a user in, and the calls of its last round in their order, from
  -- a state on: the request was pending until it was polled as approved, for a user who may sign in;
  -- the actor answered the consumption without a refusal, and only then the access token was signed
  -- for this user.
  pub data Consumed (request_id hash : String) (duration : ℕ) (sign_in : SignIn) (dto : D)
      (token browser : String) (status : RequestStatus) (w' : W) : W → Type 0 where
    waited :
        {w : W} (p : Reply) (v : W)
        → services.call request_id (polls hash) w ≡ (ok p, v)
        → p.code ≡ ResultCode.none
        → p.status ≡ pending
        → Consumed request_id hash duration sign_in dto token browser status w' v
        → Consumed request_id hash duration sign_in dto token browser status w' w
    consumed :
        {w : W} (p r : Reply) (user : Account) (w₁ w₂ w₃ w₄ w₅ w₆ : W)
        → services.call request_id (polls hash) w ≡ (ok p, w₁)
        → p.code ≡ ResultCode.none
        → p.status ≡ approved
        → services.find_user p.user_id w₁ ≡ (ok (some user), w₂)
        → user.disabled ≡ false
        → services.map_user user w₂ ≡ (ok dto, w₃)
        → services.call request_id (consumes hash) w₃ ≡ (ok r, w₄)
        → r.code ≡ ResultCode.none
        → r.status ≡ status
        → services.generate_access_token user "otp" duration w₄ ≡ (ok token, w₅)
        → services.create_sign_in (record sign_in { user_id = user.id }) w₅ ≡ (some browser, w₆)
        → services.notify w₆ ≡ w'
        → Consumed request_id hash duration sign_in dto token browser status w' w

  mapped :
      (message : String) (c : Result D × W) (d : D) (v : W)
      → rename message c ≡ (ok d, v)
      → c ≡ (ok d, v)
  mapped message (ok e, u) d v h = h
  mapped message (err e, u) d v h = cc

  admitted-Account :
      (o : Option Account) (user : Account) (dto : D) (x w' : W)
      → admitted_user services o x ≡ (ok (user, dto), w')
      → (o ≡ some user) × (user.disabled ≡ false) × (services.map_user user x ≡ (ok dto, w'))
  unfolding admitted_user
  admitted-Account Option.none user dto x w' h = cc
  admitted-Account (some a) user dto x w' h =
      let (enabled, m) =
        unless_raised a.disabled user_disabled
          (wrapping "failed to map exchanged device login user" (services.map_user a) >>= λ d.
            pure (a, d))
          x w' (user, dto) h in
      elim (bind-Steps _ _ x (user, dto) w' m) [
        | steps d v e rest ↦
            let same : a ≡ user = cc in
            let same_dto : d ≡ dto = ground arith in
            let same_state : v ≡ w' = ground arith in
            let e' = mapped "failed to map exchanged device login user" _ d v e in
            (
              ap some same,
              subst (λ (z : Account). z.disabled ≡ false) same enabled,
              rw (← same, ← same_dto, ← same_state) e',
            )
      ]

  load_exchange_user-found :
      (user_id : String) (w w' : W) (user : Account) (dto : D)
      → load_exchange_user services user_id w ≡ (ok (user, dto), w')
      → (v : W) × (services.find_user user_id w ≡ (ok (some user), v))
        × (user.disabled ≡ false)
        × (services.map_user user v ≡ (ok dto, w'))
  unfolding load_exchange_user
  load_exchange_user-found user_id w w' user dto h = elim (bind-Steps _ _ w (user, dto) w' h) [
    | steps o v e rest ↦
        let (is_some, enabled, read) = admitted-Account o user dto v w' rest in
        (v, e ∙ ap (λ z. (ok z, v)) is_some, enabled, read)
  ]

  logged-signed_in :
      (d dto : D) (t token browser : String) (s status : RequestStatus) (x : Option String × W)
      (w' : W)
      → logged services d t s x ≡ (ok (signed_in dto token browser status), w')
      → (v : W) × (x ≡ (some browser, v))
        × (services.notify v ≡ w')
        × (d ≡ dto)
        × (t ≡ token)
        × (s ≡ status)
  unfolding logged
  logged-signed_in d dto t token browser s status (Option.none, w) w' h = cc
  logged-signed_in d dto t token browser s status (some b, w) w' h =
      let same : b ≡ browser = ground arith in
      (w, ap (λ y. (some y, w)) same, ground arith, ground arith, ground arith, ground arith)

  module _ (request_id hash : String) (duration : ℕ) (sign_in : SignIn) (dto : D)
      (token browser : String) (status : RequestStatus) (w' : W) where
    mint-Consumed :
        (p : Reply) (w v : W)
        → services.call request_id (polls hash) w ≡ (ok p, v)
        → p.code ≡ ResultCode.none
        → p.status ≡ approved
        → mint services request_id hash p.user_id duration sign_in v
          ≡ (ok (signed_in dto token browser status), w')
        → Consumed request_id hash duration sign_in dto token browser status w' w
    unfolding mint
    mint-Consumed p w v polled fine granted h =
        elim (bind-Steps _ _ v (signed_in dto token browser status) w' h) [
          | steps (user, d) w₃ loaded h₁ ↦
              elim (bind-Steps _ _ w₃ (signed_in dto token browser status) w' h₁) [
                | steps r w₄ called h₂ ↦
                    elim (bind-Steps _ _ w₄ (signed_in dto token browser status) w' h₂) [
                      | steps done z ended h₃ ↦
                          elim (bind-Steps _ _ z (signed_in dto token browser status) w' h₃) [
                            | steps t w₅ signed h₄ ↦
                                let (w₂, found, enabled, read) =
                                  load_exchange_user-found p.user_id v w₃ user d loaded in
                                let (w₆, created, notified, same_d, same_t, same_s) =
                                  logged-signed_in d dto t token browser r.status status _ w' h₄ in
                                let same_z : w₄ ≡ z = check_result-state r.code w₄ z ended in
                                consumed p r user v w₂ w₃ w₄ w₅ w₆ polled fine granted found enabled
                                  (subst (λ y. services.map_user user w₂ ≡ (ok y, w₃)) same_d read)
                                  called (checked r.code w₄ z ended) same_s
                                  (rw (same_z, ← same_t) signed) created notified
                          ]
                    ]
              ]
        ]

    on_status-cases :
        (s : RequestStatus) (minted next : Exec W (Exchanged D)) (w : W) (o : Exchanged D)
        → on_status services s minted next w ≡ (ok o, w')
        → ((s ≡ approved) × (minted w ≡ (ok o, w'))) ⊎ ((s ≡ pending) × (next w ≡ (ok o, w')))
    unfolding on_status
    on_status-cases approved minted next w o h = inl (refl, h)
    on_status-cases pending minted next w o h = inr (refl, h)
    on_status-cases RequestStatus.denied minted next w o h = cc
    on_status-cases unset minted next w o h = cc

    poll_once-Consumed :
        (next : Exec W (Exchanged D)) (w : W)
        → ((v : W)
            → next v ≡ (ok (signed_in dto token browser status), w')
            → Consumed request_id hash duration sign_in dto token browser status w' v)
        → poll_once services next request_id hash duration sign_in w
          ≡ (ok (signed_in dto token browser status), w')
        → Consumed request_id hash duration sign_in dto token browser status w' w
    unfolding poll_once
    poll_once-Consumed next w later h =
        elim (bind-Steps _ _ w (signed_in dto token browser status) w' h) [
          | steps p v polled h₁ ↦
              elim (bind-Steps _ _ v (signed_in dto token browser status) w' h₁) [
                | steps done u ended h₂ ↦
                    let fine = checked p.code v u ended in
                    let same : u ≡ v = sym (check_result-state p.code v u ended) in
                    elim (on_status-cases p.status _ next u (signed_in dto token browser status)
                      h₂) [
                        | inl (granted, m) ↦ mint-Consumed p w v polled fine granted (rw same at m)
                        | inr (waiting, m) ↦ waited p v polled fine waiting (later v (rw same at m))
                      ]
              ]
        ]

    not_waiting :
        (e : Ending) (v : W) → waiting services e v ≢ (ok (signed_in dto token browser status), w')
    unfolding waiting
    not_waiting timed_out v h = cc
    not_waiting (cancelled e) v h = cc

    polling-Consumed :
        (ticks : ℕ) (ending : Ending) (w : W)
        → polling services ticks ending request_id hash duration sign_in w
          ≡ (ok (signed_in dto token browser status), w')
        → Consumed request_id hash duration sign_in dto token browser status w' w
    unfolding polling
    polling-Consumed zero ending w h =
        poll_once-Consumed _ w (λ v m. absurd (not_waiting ending v m)) h
    polling-Consumed (suc n) ending w h =
        poll_once-Consumed _ w (λ v m. polling-Consumed n ending v m) h

  -- What `Exchange` signs a user in for, call after call: polls with the hash of the device's token that
  -- the actor answered with pending, one that it answered with approved, a user who was found and is
  -- not disabled, a consumption that the actor then did not refuse, and only then the
  -- access token for this user and the record of the sign-in.
  pub exchange-Consumed :
      (ticks : ℕ) (ending : Ending) (request_id device_token : String) (duration : ℕ)
      (sign_in : SignIn) (w w' : W) (dto : D) (token browser : String) (status : RequestStatus)
      → exchange services ticks ending request_id device_token duration sign_in w
        ≡ (ok (signed_in dto token browser status), w')
      → Consumed request_id
          (services.sha256 device_token)
          duration
          sign_in
          dto
          token
          browser
          status
          w'
          w
  unfolding exchange
  exchange-Consumed ticks ending request_id device_token duration sign_in w w' dto token browser
        status h =
      polling-Consumed request_id _ duration sign_in dto token browser status w' ticks ending w
        (unless_raised (request_id == "" || (device_token == "" || eqb duration 0))
          device_login_expired
          (polling services ticks ending request_id (services.sha256 device_token) duration sign_in)
          w w' (signed_in dto token browser status) h).1
