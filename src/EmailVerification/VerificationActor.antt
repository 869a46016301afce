-- ===== src/EmailVerification/VerificationActor.antt =====
-- backend/internal/emailverification/actor.go. The actor's ID is the user's. The payload of a call is
-- what the envelope decodes to; a missing envelope is `none`.
pub mod Verdicts
use pocket_id.Prelude.{
  ℕ, ◌-◌, String, Bool, true, false, not, ◌||◌, Option, none, some, ◌==◌, leb, if◌then◌else◌,
}
use pocket_id.AppError.{plain}
use pocket_id.Result.{Result, ok, err}
use pocket_id.Exec.{Exec, pure, raise, wrapping, ◌>>=◌, ◌>>◌}
use pocket_id.Actor.{Client, read_clock, before}

pub data ConsumeStatus : Type 0 where
  consumed not_found : ConsumeStatus

pub record State : Type 0 where
  pub token_hash : String
  pub email : String
  pub replaces_email : String
  pub expires_at : ℕ

abbrev pub zero_state : State
zero_state = record { token_hash = ""; email = ""; replaces_email = ""; expires_at = 0 }

pub record EmailChange : Type 0 where
  pub email : String
  pub expires_at : ℕ

pub record ConsumeResponse : Type 0 where
  pub status : ConsumeStatus
  pub state : State

-- `decodeState`, `decodeTokenRequest`
unfoldable pub decoded {ℓ} : {A : Type ℓ} → Option (Result A) → Result A
decoded none = err (plain "request body is empty for method")
decoded (some (err e)) = err (plain "request body is not valid for method")
decoded (some (ok a)) = ok a

module _ {W : Type 0} (client : Client State W) where
  unfoldable pub set_state : State → Exec W (Unit {0})
  set_state state = do
    t ← read_clock client
    if leb state.expires_at t
        then pure tt
        else wrapping "error saving actor state" (client.set_state state (state.expires_at - t))

  unfoldable pub get_state : Exec W State
  get_state = wrapping "error retrieving actor state" client.get_state

  abbrev decode : {A : Type 0} → Option (Result A) → Exec W A
  decode payload w = (decoded payload, w)

  unfoldable pub issue : Option (Result State) → Exec W (Unit {0})
  issue payload = do state ← decode payload; set_state state

  -- `state.TokenHash == "" || state.ExpiresAt.Before(time.Now()) || hashes differ`: the clock is
  -- read only where a hash is stored
  unfoldable pub mismatches : State → String → Exec W Bool
  mismatches state token_hash = if state.token_hash == "" then pure true else do
    t ← read_clock client
    pure (before state.expires_at t || not (state.token_hash == token_hash))

  unfoldable pub take : State → Exec W ConsumeResponse
  take state = do
    wrapping "error deleting actor state" client.delete_state
    pure (record { status = consumed; state = state })

  unfoldable pub consume_hash : String → Exec W ConsumeResponse
  consume_hash token_hash = do
    state ← get_state
    refused ← mismatches state token_hash
    if refused then pure (record { status = not_found; state = zero_state }) else take state

  unfoldable pub consume : Option (Result String) → Exec W ConsumeResponse
  consume payload = do token_hash ← decode payload; consume_hash token_hash

  -- a delete that finds nothing has reached its end
  forgive : Result (Unit {0}) × W → Result (Unit {0}) × W
  forgive (ok u, w) = (ok u, w)
  forgive (err e, w) =
      if client.is_state_not_found e
      then (ok tt, w)
      else wrapping "error deleting actor state" (raise e) w

  unfoldable pub delete_if_stored : Exec W (Unit {0})
  unfolding forgive
  delete_if_stored w = forgive (client.delete_state w)

  unfoldable pub discard_from : String → State → Exec W (Unit {0})
  discard_from token_hash state =
      if state.token_hash == "" || not (state.token_hash == token_hash)
      then pure tt
      else delete_if_stored

  unfoldable pub discard : Option (Result String) → Exec W (Unit {0})
  discard payload = do token_hash ← decode payload; state ← get_state; discard_from token_hash state

  unfoldable pub cancel_change : Exec W (Unit {0})
  cancel_change = do
    state ← get_state
    if state.replaces_email == "" then pure tt else delete_if_stored

  unfoldable pub restore_over : State → State → Exec W (Unit {0})
  restore_over state current = if current.token_hash == "" then set_state state else pure tt

  unfoldable pub restore : Option (Result State) → Exec W (Unit {0})
  restore payload = do state ← decode payload; current ← get_state; restore_over state current

  unfoldable pub pending_from : State → Exec W EmailChange
  pending_from state =
      if state.replaces_email == "" then pure (record { email = ""; expires_at = 0 }) else do
        t ← read_clock client
        if before state.expires_at t
            then pure (record { email = ""; expires_at = 0 })
            else pure (record { email = state.email; expires_at = state.expires_at })

  -- `Peek` for the method `pendingChange`
  unfoldable pub pending_change : Exec W EmailChange
  pending_change = do state ← get_state; pending_from state
