-- ===== src/OneTimeAccess/TokenActor/Traces.antt =====
-- Sequences of calls on one login code: it is redeemed at most once, and a failed exchange puts it
-- back (backend/internal/onetimeaccess/actor.go).
use pocket_id.Prelude.{
  ℕ, ◌≤◌, String, some, ◌≡◌, ◌≢◌, ◌⊎◌, inl, inr, refl, ap, ◌∙◌, subst, arith, leb,
}
use pocket_id.Result.{Result, ok, err}
use pocket_id.Exec.{pure}
use pocket_id.Exec.Triples.{
  Triple, Ends, Triple-pure, Triple-if, Triple-wrapping, Triple-weaken, Triple-assume, Triple-bind,
}
use pocket_id.Actor.{Client, read_clock}
use pocket_id.Actor.Store.{IsStore, At, Near, Kept, read_clock-Triple, set-Triple}
use pocket_id.OneTimeAccess.TokenActor.{
  consumed, TokenState, zero_state, ConsumeResponse, consume, restore,
}
use pocket_id.OneTimeAccess.TokenActor.Redeeming.{
  Answers, missing, elsewhere, redeemed, consume_with-Triple,
}

module _ {W : Type 0} {client : Client TokenState W} (store : IsStore client zero_state) where
  -- Every answer of `consume`: the code is absent or over, or it belongs to another device, and
  -- stays; or it is redeemed before its end, on its own device, and deleted.
  pub consume-Answers :
      (device_token : String) (w w' : W) (r : ConsumeResponse)
      → consume client (some (ok device_token)) w ≡ (ok r, w')
      → Answers store (store.time w) (store.view w) device_token r w'
  unfolding consume
  consume-Answers d w w' r e =
      subst
        (Ends (Answers store (store.time w) (store.view w) d)
          (At store (store.time w) (store.view w)))
        e ((consume_with-Triple store _ _ d).at w (inl refl, omega arith))

  -- where `restore` leaves the actor when it succeeds
  restored :
      (state : TokenState) (t : ℕ) (s : TokenState)
      → Triple
          (At store t s)
          (restore client (some (ok state)))
          (λ _ w. (store.view w ≡ state) ⊎ (state.expires_at ≤ store.time w))
          (λ w. Unit)
  unfolding restore
  restored state t s =
      Triple-bind _ (read_clock client) _
        (Triple-weaken _ (read_clock-Triple store t s) (λ w h. h) (λ _ w h. h) (λ w h. tt))
        λ n. Triple-assume _ λ later.
          Triple-if (leb state.expires_at n) (pure tt) _
            (λ over. Triple-pure tt (λ w h. inr (ground arith)))
            (λ _. Triple-wrapping _ _ (
              Triple-weaken _ (set-Triple store n s state _) (λ w h. h) (λ _ w h. inl h.0)
                (λ w h. tt)))

  redeemed_state :
      (t : ℕ) (s : TokenState) (d : String) (r : ConsumeResponse) (w' : W)
      → Answers store t s d r w'
      → r.status ≡ consumed
      → r.state ≡ s
  redeemed_state t s d r w' (missing _ _) e = cc
  redeemed_state t s d r w' (elsewhere _ _ _) e = cc
  redeemed_state t s d r w' (redeemed n _ _ _ _ _ _) e = refl

  -- The compensation after a failed exchange: restoring what `consume` handed out puts the token
  -- back as it was, unless the token's end is past
  -- on the clock after `restore`.
  pub restore-consume :
      (d : String) (w w₁ w₂ : W) (state : TokenState)
      → consume client (some (ok d)) w ≡ (ok (record { status = consumed; state = state }), w₁)
      → restore client (some (ok state)) w₁ ≡ (ok tt, w₂)
      → (store.view w₂ ≡ store.view w) ⊎ ((store.view w).expires_at ≤ store.time w₂)
  restore-consume d w w₁ w₂ state first second =
      let same = redeemed_state _ _ d _ w₁ (consume-Answers d w w₁ _ first) refl in
      let after =
        subst (Ends (λ _ v. (store.view v ≡ state) ⊎ (state.expires_at ≤ store.time v)) (λ v. Unit))
          second ((restored state (store.time w₁) (store.view w₁)).at w₁ (inl refl, omega arith)) in
      elim after [ inl back ↦ inl (back ∙ same) | inr over ↦ inr (rw (← same) over) ]

  -- calls of `consume` one after the other, with purges by the host in between
  pub data Consumes : W → W → Type 0 where
    done : {w : W} → Consumes w w
    again : {w w' : W} (d : String) → Consumes (consume client (some (ok d)) w).1 w' → Consumes w w'
    idle : {w v w' : W} → Kept zero_state store.view store.time w v → Consumes v w' → Consumes w w'

  consume-zero_state :
      (d : String) (w : W)
      → store.view w ≡ zero_state
      → store.view (consume client (some (ok d)) w).1 ≡ zero_state
  unfolding consume
  consume-zero_state d w e = go _ ((consume_with-Triple store _ _ d).at w (inl refl, omega arith))
    where
      near : (v : W) → Near store (store.view w) v → store.view v ≡ zero_state
      near v (inl p) = p ∙ e
      near v (inr p) = p

      answer :
          (r : ConsumeResponse) (v : W)
          → Answers store (store.time w) (store.view w) d r v
          → store.view v ≡ zero_state
      answer r v (missing _ h) = near v h.0
      answer r v (elsewhere _ _ h) = near v h.0
      answer r v (redeemed n _ _ _ _ _ p) = p

      go :
          (x : Result ConsumeResponse × W)
          → Ends
              (Answers store (store.time w) (store.view w) d)
              (At store (store.time w) (store.view w))
              x
          → store.view x.1 ≡ zero_state
      go (ok r, v) a = answer r v a
      go (err x, v) h = near v h.0

  Consumes-zero_state :
      {w w' : W} → Consumes w w' → store.view w ≡ zero_state → store.view w' ≡ zero_state
  Consumes-zero_state done e = e
  Consumes-zero_state (again {w = w} d r) e = Consumes-zero_state r (consume-zero_state d w e)
  Consumes-zero_state (idle kept r) e = Consumes-zero_state r (ground arith)

  gone_of_redeemed :
      (t : ℕ) (s : TokenState) (d : String) (r : ConsumeResponse) (w : W)
      → r.status ≡ consumed
      → Answers store t s d r w
      → (s.user_id ≢ "") × (store.view w ≡ zero_state)
  gone_of_redeemed t s d r w e (missing _ _) = cc
  gone_of_redeemed t s d r w e (elsewhere _ _ _) = cc
  gone_of_redeemed t s d r w e (redeemed n _ stored _ _ _ p) = (stored, p)

  -- A code is redeemed at most once: after one `consume` has redeemed it no later `consume` does, on
  -- whatever device, where only calls of `consume` run in between.
  pub redeemed_once :
      (d d' : String) (w w₁ w₂ w₃ : W) (r r' : ConsumeResponse)
      → consume client (some (ok d)) w ≡ (ok r, w₁)
      → r.status ≡ consumed
      → Consumes w₁ w₂
      → consume client (some (ok d')) w₂ ≡ (ok r', w₃)
      → r'.status ≢ consumed
  redeemed_once d d' w w₁ w₂ w₃ r r' first redeemed_first turns second again_redeemed =
      let (_, gone) = gone_of_redeemed _ _ d r w₁ redeemed_first (consume-Answers d w w₁ r first) in
      let (stored, _) =
        gone_of_redeemed _ _ d' r' w₃ again_redeemed (consume-Answers d' w₂ w₃ r' second) in
      stored (ap (λ (x : TokenState). x.user_id) (Consumes-zero_state turns gone))
