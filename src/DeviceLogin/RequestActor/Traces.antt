-- ===== src/DeviceLogin/RequestActor/Traces.antt =====
-- Sequences of turns of one request actor: between two openings of a request, at most one exchange
-- is granted (backend/internal/devicelogin/actor.go).
use pocket_id.Prelude.{ℕ, ◌≤◌, ◌<◌, String, true, false, ◌≡◌, ◌≢◌, inl, refl, ◌∙◌, arith, subst, ap}
use pocket_id.Result.{Result, ok, err}
use pocket_id.Exec.Triples.{Ends}
use pocket_id.Actor.{Client}
use pocket_id.Actor.Store.{IsStore, At, Kept}
use pocket_id.DeviceLogin.RequestActor.{
  approved, State, zero_state, Reply, CreateInput, DecisionInput, Call, creates, decides, consumes,
  inspects, polls, run, inspect, poll, decide, consume,
}
use pocket_id.DeviceLogin.RequestActor.Transitions.{
  Next, stays, purged, decided, Next-of_Near, Next-of_At, decide-Triple, Decides, ignored, settled,
}
use pocket_id.DeviceLogin.RequestActor.Redeeming.{
  is_grant, Redeems, withheld, redeemed, consume-Triple,
}
use pocket_id.DeviceLogin.RequestActor.Opening.{
  inspect-Triple, poll-Triple, create-Triple, Creates, Spoiled,
}

-- every method but `create`
abbrev pub Follows : Call → Type 0
Follows (creates _) = ⊥
Follows _ = Unit

module _ {W A : Type 0} {Q : A → W → Type 0} {E : W → Type 0} (N : W → Type 0) where
  Ends-either :
      (r : Result A × W)
      → Ends Q E r
      → ((a : A) (w : W) → Q a w → N w)
      → ((w : W) → E w → N w)
      → N r.1
  Ends-either (ok a, w) h q e = q a w h
  Ends-either (err x, w) h q e = e w h

module _ {W : Type 0} {client : Client State W} (store : IsStore client zero_state) where
  -- the precondition of the triples at the state itself
  here : (w : W) → At store (store.time w) (store.view w) w
  here w = (inl refl, omega arith)

  Next-of_Decides :
      (t : ℕ) (s : State) (input : DecisionInput) (r : Reply) (w : W)
      → Decides store t s input r w
      → Next s (store.view w)
  Next-of_Decides t s input r w (ignored _ h) = Next-of_Near store t s w h.0
  Next-of_Decides t s input r w (settled status user n _ stored open_request _ _ choice e) =
      decided status user stored open_request (ground arith) e

  Next-of_Redeems :
      (t : ℕ) (s : State) (hash : String) (r : Reply) (w : W)
      → Redeems store t s hash r w
      → Next s (store.view w)
  Next-of_Redeems t s hash r w (withheld _ _ _ h) = Next-of_Near store t s w h.0
  Next-of_Redeems t s hash r w (redeemed n _ _ _ _ _ _ _ _ e) = purged e

  -- Whatever a method other than `create` answers, and whether or not the host's calls fail, it
  -- leaves the stored request as it was, or decides a pending one, or finds or makes it gone.
  pub run-Next :
      (c : Call) (w : W) → Follows c → Next (store.view w) (store.view (run client c w).1)
  unfolding run
  run-Next (creates input) w h = absurd h
  run-Next (decides input) w h =
      Ends-either (λ v. Next (store.view w) (store.view v)) (decide client input w)
        ((decide-Triple store _ _ input).at w (here w)) (Next-of_Decides _ _ input) (λ v n. n)
  run-Next (consumes hash) w h =
      Ends-either (λ v. Next (store.view w) (store.view v)) (consume client hash w)
        ((consume-Triple store _ _ hash).at w (here w)) (Next-of_Redeems _ _ hash)
        (Next-of_At store (store.time w) (store.view w) (store.time w))
  run-Next inspects w h =
      Ends-either (λ v. Next (store.view w) (store.view v)) (inspect client w)
        ((inspect-Triple store _ _).at w (here w))
        (λ _. Next-of_At store (store.time w) (store.view w) (store.time w))
        (Next-of_At store (store.time w) (store.view w) (store.time w))
  run-Next (polls hash) w h =
      Ends-either (λ v. Next (store.view w) (store.view v)) (poll client hash w)
        ((poll-Triple store _ _ hash).at w (here w))
        (λ _. Next-of_At store (store.time w) (store.view w) (store.time w))
        (Next-of_At store (store.time w) (store.view w) (store.time w))

  -- turns of one actor, none of them `create`; between turns the host may purge the state
  pub data Turns : W → W → Type 0 where
    done : {w : W} → Turns w w
    turn : {w w' : W} (c : Call) → Follows c → Turns (run client c w).1 w' → Turns w w'
    idle : {w v w' : W} → Kept zero_state store.view store.time w v → Turns v w' → Turns w w'

  Next-zero_state : {s s' : State} → s ≡ zero_state → Next s s' → s' ≡ zero_state
  Next-zero_state e (stays p) = p ∙ e
  Next-zero_state e (purged p) = p
  Next-zero_state e (decided _ _ stored _ _ _) = absurd (stored (ap (λ (x : State). x.code) e))

  Turns-zero_state :
      {w w' : W} → Turns w w' → store.view w ≡ zero_state → store.view w' ≡ zero_state
  Turns-zero_state done e = e
  Turns-zero_state (turn {w = w} c follows r) e =
      Turns-zero_state r (Next-zero_state e (run-Next c w follows))
  Turns-zero_state (idle kept r) e = Turns-zero_state r (ground arith)

  gone_of_grant :
      (t : ℕ) (s : State) (hash : String) (r : Reply) (w : W)
      → is_grant r ≡ true
      → Redeems store t s hash r w
      → store.view w ≡ zero_state
  gone_of_grant t s hash r w g (withheld _ _ no_grant _) = absurd (ground arith)
  gone_of_grant t s hash r w g (redeemed n _ _ _ _ _ _ _ _ e) = e

  no_grant_of_gone :
      (t : ℕ) (s : State) (hash : String) (r : Reply) (w : W)
      → s ≡ zero_state
      → Redeems store t s hash r w
      → is_grant r ≡ false
  no_grant_of_gone t s hash r w e (withheld _ _ no_grant _) = no_grant
  no_grant_of_gone t s hash r w e (redeemed n _ _ stored _ _ _ _ _ _) =
      absurd (stored (ap (λ (x : State). x.code) e))

  consume_at :
      (hash : String) (w w' : W) (r : Reply)
      → consume client hash w ≡ (ok r, w')
      → Redeems store (store.time w) (store.view w) hash r w'
  consume_at hash w w' r e =
      subst
        (Ends (Redeems store (store.time w) (store.view w) hash)
          (At store (store.time w) (store.view w)))
        e ((consume-Triple store _ _ hash).at w (here w))

  -- What a granted exchange proves: the stored request was approved for a user, was opened by the
  -- device with this token hash, was not over at some time from the start of the call
  -- on, and is deleted.
  pub granted_consume :
      (hash : String) (w w' : W) (r : Reply)
      → run client (consumes hash) w ≡ (ok r, w')
      → is_grant r ≡ true
      → (n : ℕ) × ((store.view w).code ≢ "")
        × ((store.view w).device_token_hash ≡ hash)
        × ((store.view w).status ≡ approved)
        × ((store.view w).user_id ≢ "")
        × (store.time w ≤ n)
        × (n < (store.view w).expires_at)
        × (store.view w' ≡ zero_state)
  unfolding run
  granted_consume hash w w' r e granted = go (consume_at hash w w' r e)
    where
      go :
          Redeems store (store.time w) (store.view w) hash r w'
          → (n : ℕ) × ((store.view w).code ≢ "")
            × ((store.view w).device_token_hash ≡ hash)
            × ((store.view w).status ≡ approved)
            × ((store.view w).user_id ≢ "")
            × (store.time w ≤ n)
            × (n < (store.view w).expires_at)
            × (store.view w' ≡ zero_state)
      go (withheld _ _ no_grant _) = absurd (ground arith)
      go (redeemed n _ _ a b c d f g h) = (n, a, b, c, d, f, g, h)

  -- A decision is recorded only on a stored request that is still pending and not over; it keeps the
  -- expiry, and only "approve" sets the user. Any other answered decision changes nothing.
  pub decide-Decides :
      (input : DecisionInput) (w w' : W) (r : Reply)
      → run client (decides input) w ≡ (ok r, w')
      → Decides store (store.time w) (store.view w) input r w'
  unfolding run
  decide-Decides input w w' r e =
      subst
        (Ends (Decides store (store.time w) (store.view w) input)
          (λ v. Next (store.view w) (store.view v)))
        e ((decide-Triple store _ _ input).at w (here w))

  -- A request is opened only where the state that was read is empty or over; a live request under
  -- the same code makes `create` answer `collision`, and stays.
  pub create-Creates :
      (input : CreateInput) (w w' : W) (r : Reply)
      → run client (creates input) w ≡ (ok r, w')
      → Creates store (store.time w) (store.view w) input r w'
  unfolding run
  create-Creates input w w' r e =
      subst
        (Ends (Creates store (store.time w) (store.view w) input)
          (Spoiled store (store.time w) (store.view w) input))
        e ((create-Triple store _ _ input).at w (here w))

  -- An approved request is exchanged at most once: after a granted `consume`, no `consume` is granted
  -- again, whatever turns of methods other than `create` run in between.
  pub granted_once :
      (hash hash' : String) (w w₁ w₂ w₃ : W) (r r' : Reply)
      → run client (consumes hash) w ≡ (ok r, w₁)
      → is_grant r ≡ true
      → Turns w₁ w₂
      → run client (consumes hash') w₂ ≡ (ok r', w₃)
      → is_grant r' ≡ false
  unfolding run
  granted_once hash hash' w w₁ w₂ w₃ r r' first granted turns second =
      let gone =
        Turns-zero_state turns
          (gone_of_grant _ _ hash r w₁ granted (consume_at hash w w₁ r first)) in
      no_grant_of_gone _ _ hash' r' w₃ gone (consume_at hash' w₂ w₃ r' second)
