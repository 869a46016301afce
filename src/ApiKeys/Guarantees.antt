-- ===== src/ApiKeys/Guarantees.antt =====
-- What a renewed key and an accepted key go back to (`RenewApiKey` and `ValidateApiKey` in
-- backend/internal/apikey/service.go).
use pocket_id.Prelude.{
  ℕ, String, false, not, Option, none, some, ◌≡◌, ◌≢◌, ◌≤◌, ◌<◌, subst, ltb, arith,
}
use pocket_id.Result.{Result, ok, err}
use pocket_id.Exec.{Exec, rename}
use pocket_id.Exec.Runs.{Steps, steps, bind-Steps, unless_raised}
use pocket_id.ApiKeys.{
  ApiKey, Services, invalid_api_key_expiration, api_key_not_expired, current_time, loaded, renewed,
  save_renewed, renew_key, renew_inside, in_transaction, renew_api_key, init_static_api_key_user,
}

module _ {W A : Type 0} where
  unwrapped :
      (message : String) (c : Result A × W) (a : A) (v : W)
      → rename message c ≡ (ok a, v)
      → c ≡ (ok a, v)
  unwrapped message (ok b, u) a v h = h
  unwrapped message (err e, u) a v h = cc

module _ {U W : Type 0} (services : Services U W) where
  read_clock :
      (v : W) (t : ℕ) (v₁ : W) → current_time services v ≡ (ok t, v₁) → services.now v ≡ (t, v₁)
  read_clock v t v₁ h =
      let (x, u) = services.now v in
      let same : x ≡ t = ground arith in
      let same_state : u ≡ v₁ = ground arith in rw (same, same_state)

  -- the renewal of a key that started at a state, and the state after it
  pub data Renewed (user_id id : String) (expiration : ℕ) (w : W)
      : ApiKey → String → W → Type 0 where
    renewal :
        (t t' : ℕ) (old : ApiKey) (token : String) (w₀ w₁ w₂ w₃ w₄ w₅ : W)
        → services.now w ≡ (t, w₀)
        → t < expiration
        → services.find_key id user_id (services.begin_transaction w₀) ≡ (ok (some old), w₁)
        → services.now w₁ ≡ (t', w₂)
        → old.expires_at ≤ t'
        → services.random_string 32 w₂ ≡ (ok token, w₃)
        → services.save_key
            (record old {
              key = services.sha256 token;
              expires_at = expiration;
              expiration_email_sent = false;
            })
            w₃
          ≡ (ok tt, w₄)
        → services.commit_transaction w₄ ≡ (ok tt, w₅)
        → Renewed user_id id expiration w
            (record old {
              key = services.sha256 token;
              expires_at = expiration;
              expiration_email_sent = false;
            })
            token
            (services.rollback w₅)

  of_transaction :
      {A : Type 0} (m : Exec W A) (w : W) (a : A) (z : W)
      → in_transaction services m w ≡ (ok a, z)
      → (v : W) × (m (services.begin_transaction w) ≡ (ok a, v)) × (services.rollback v ≡ z)
  of_transaction m w a z h =
      let (r, v) = m (services.begin_transaction w) in
      let same : r ≡ ok a = ground arith in (v, rw (same), ground arith)

  -- the renewal of a key that was found
  data KeyRenewed (old : ApiKey) (expiration : ℕ) (v : W) : ApiKey → String → W → Type 0 where
    key_renewal :
        (t : ℕ) (token : String) (v₁ v₂ v₃ v₄ : W)
        → services.now v ≡ (t, v₁)
        → old.expires_at ≤ t
        → services.random_string 32 v₁ ≡ (ok token, v₂)
        → services.save_key
            (record old {
              key = services.sha256 token;
              expires_at = expiration;
              expiration_email_sent = false;
            })
            v₂
          ≡ (ok tt, v₃)
        → services.commit_transaction v₃ ≡ (ok tt, v₄)
        → KeyRenewed old expiration v
            (record old {
              key = services.sha256 token;
              expires_at = expiration;
              expiration_email_sent = false;
            })
            token
            v₄

  module _ (old : ApiKey) (expiration : ℕ) (key : ApiKey) (token : String) where
    saved :
        (v z : W) (made : String)
        → save_renewed services (renewed services old expiration made) made v ≡ (ok (key, token), z)
        → (v₁ : W) × (services.save_key (renewed services old expiration made) v ≡ (ok tt, v₁))
          × (services.commit_transaction v₁ ≡ (ok tt, z))
          × (renewed services old expiration made ≡ key)
          × (made ≡ token)
    saved v z made h = elim (bind-Steps _ _ v (key, token) z h) [
      | steps done v₁ saving rest ↦ elim (bind-Steps _ _ v₁ (key, token) z rest) [
        | steps done v₂ committing last ↦
            let same : v₂ ≡ z = ground arith in
            let committed = unwrapped "error committing transaction" _ done v₂ committing in
            (
              v₁,
              unwrapped "error saving API key" _ done v₁ saving,
              subst (λ x. services.commit_transaction v₁ ≡ (ok tt, x)) same committed,
              (ground arith),
              (ground arith),
            )
      ]
    ]

    renew_key-KeyRenewed :
        (v z : W)
        → renew_key services old expiration v ≡ (ok (key, token), z)
        → KeyRenewed old expiration v key token z
    renew_key-KeyRenewed v z h = elim (bind-Steps _ _ v (key, token) z h) [
      | steps t v₁ clock rest ↦
          let (fresh, rest') =
            unless_raised (ltb t old.expires_at) api_key_not_expired _ v₁ z (key, token) rest in
          elim (bind-Steps _ _ v₁ (key, token) z rest') [
            | steps made v₂ drawn last ↦
                let (v₃, saving, committing, same_key, same_token) = saved v₂ z made last in
                rw (← same_key, ← same_token)
                  (key_renewal t made v₁ v₂ v₃ z (read_clock v t v₁ clock) (ground arith)
                    (unwrapped "error generating API key token" _ made v₂ drawn) saving committing)
          ]
    ]

  whole_renewal :
      (user_id id : String) (expiration t : ℕ) (old key : ApiKey) (token : String) (w w₀ v z : W)
      → services.now w ≡ (t, w₀)
      → t < expiration
      → services.find_key id user_id (services.begin_transaction w₀) ≡ (ok (some old), v)
      → KeyRenewed old expiration v key token z
      → Renewed user_id id expiration w key token (services.rollback z)
  whole_renewal user_id id expiration t old key token w w₀ v z clock future finding
        (key_renewal t' made v₁ v₂ v₃ v₄ clock' expired drawn saving committing) =
      renewal t t' old made w₀ v v₁ v₂ v₃ v₄ clock future finding clock' expired drawn saving
        committing

  module _ (user_id id : String) (expiration : ℕ) (key : ApiKey) (token : String) where
    renew_inside-KeyRenewed :
        (v z : W)
        → renew_inside services user_id id expiration v ≡ (ok (key, token), z)
        → (old : ApiKey) × (v₁ : W) × (services.find_key id user_id v ≡ (ok (some old), v₁))
          × KeyRenewed old expiration v₁ key token z
    unfolding renew_inside
    renew_inside-KeyRenewed v z h = elim (bind-Steps _ _ v (key, token) z h) [
      | steps found v₁ finding rest ↦
          go found v₁ (unwrapped "error loading API key" _ found v₁ finding)
            (bind-Steps (loaded services found) _ v₁ (key, token) z rest)
    ]
      where
        go :
            (found : Option ApiKey) (v₁ : W)
            → services.find_key id user_id v ≡ (ok found, v₁)
            → Steps
                (loaded services found)
                (λ old. renew_key services old expiration)
                v₁
                (key, token)
                z
            → (old : ApiKey) × (v₁ : W) × (services.find_key id user_id v ≡ (ok (some old), v₁))
              × KeyRenewed old expiration v₁ key token z
        go none v₁ finding (steps old v₂ loading last) = cc
        go (some row) v₁ finding (steps old v₂ loading last) =
            let same : row ≡ old = ground arith in
            let same_state : v₁ ≡ v₂ = ground arith in
            (
              old,
              v₂,
              (rw (← same, ← same_state) finding),
              renew_key-KeyRenewed old expiration key token v₂ z last,
            )

    -- A renewal that succeeds was given an expiration in the future; the database returned a key
    -- for the ID and the user, which had expired; and that key was saved and committed with the new
    -- token's hash, the new expiration, and the mail not sent, its other fields as they were.
    pub renew_api_key-Renewed :
        (w z : W)
        → renew_api_key services user_id id expiration w ≡ (ok (key, token), z)
        → Renewed user_id id expiration w key token z
    unfolding renew_api_key
    renew_api_key-Renewed w z h = elim (bind-Steps _ _ w (key, token) z h) [
      | steps t w₀ clock rest ↦
          let (future, rest') =
            unless_raised (not (ltb t expiration)) invalid_api_key_expiration _ w₀ z (key, token)
              rest in
          let (v, inside, back) =
            of_transaction (renew_inside services user_id id expiration) w₀ (key, token) z rest' in
          let (old, v₁, finding, renewed_key) =
            renew_inside-KeyRenewed (services.begin_transaction w₀) v inside in
          rw (← back) (
            whole_renewal user_id id expiration t old key token w w₀ v₁ v (read_clock w t w₀ clock)
              (ground arith) finding renewed_key)
    ]

  pub data Validated (static_api_key api_key : String) (w : W) (user : U) (z : W) : Type 0 where
    by_static_key :
        static_api_key ≢ ""
        → api_key ≡ static_api_key
        → init_static_api_key_user services w ≡ (ok user, z)
        → Validated static_api_key api_key w user z
    by_stored_key :
        (t : ℕ) (key : ApiKey) (v : W)
        → api_key ≢ ""
        → services.now w ≡ (t, v)
        → services.use_key (services.sha256 api_key) t v ≡ (ok (some (key, user)), z)
        → Validated static_api_key api_key w user z
