-- ===== src/UserSignup/SignupTokenActor/Uses.antt =====
-- A signup token is used at most as often as its limit allows (backend/internal/usersignup/actor.go).
use pocket_id.Prelude.{
  ℕ, ◌+◌, ◌≤◌, ◌<◌, Bool, true, false, ◌≡◌, ◌≢◌, ◌⊎◌, inl, inr, refl, sym, subst, arith, ◌==◌,
  eq_iff, if◌then◌else◌, leb, Bool-cases, [],
}
use pocket_id.Exec.{pure}
use pocket_id.Exec.Triples.{
  Triple, Ends, Triple-pure, Triple-if, Triple-wrapping, Triple-weaken, Triple-assume, Triple-bind,
}
use pocket_id.Actor.{Client, read_clock, before}
use pocket_id.Actor.Store.{IsStore, At, read_clock-Triple, get-Triple, set-Triple}
use pocket_id.UserSignup.SignupTokenActor.{
  consumed, not_found, SignupTokenState, zero_state, ConsumeResponse, set_state, get_state,
  is_missing, use_once, consume,
}

module _ {W : Type 0} {client : Client SignupTokenState W} (store : IsStore client zero_state)
    (t : ℕ) (s : SignupTokenState) where
  -- the state of a write that succeeded, or was skipped because the token is over
  abbrev pub Written : SignupTokenState → W → Type 0
  Written next w =
      ((store.view w ≡ next) × (t ≤ store.time w))
      ⊎ (At store t s w × ((n : ℕ) × (n ≤ store.time w) × (next.expires_at ≤ n)))

  abbrev pub Spoiled : SignupTokenState → W → Type 0
  Spoiled next w = At store t s w ⊎ ((store.view w ≡ next) × (t ≤ store.time w))

  pub set_state-Triple :
      (next : SignupTokenState)
      → Triple (At store t s) (set_state client next) (λ _ w. Written next w) (Spoiled next)
  unfolding set_state
  set_state-Triple next =
      Triple-bind _ (read_clock client) _
        (Triple-weaken _ (read_clock-Triple store t s) (λ w h. h) (λ _ w h. h) (λ w h. inl h))
        λ n. Triple-assume _ λ later.
          Triple-if (leb next.expires_at n) (pure tt) _
            (λ over. Triple-pure tt (λ w h. inr ((h.0, omega arith), (n, h.1, ground arith))))
            (λ _. Triple-wrapping _ _ (
              Triple-weaken _ (set-Triple store n s next _) (λ w h. h)
                (λ _ w h. inl (h.0, omega arith))
                (λ w h. elim h.0 [
                  | inl near ↦ inl (near, omega arith)
                  | inr done ↦ inr (done, omega arith)
                ])))

  pub get_state-Triple :
      Triple
        (At store t s)
        (get_state client)
        (λ a w. At store t s w × ((a ≡ s) ⊎ (a ≡ zero_state)))
        (At store t s)
  unfolding get_state
  get_state-Triple = Triple-wrapping _ _ (get-Triple store t s)

module _ {W : Type 0} {client : Client SignupTokenState W} (store : IsStore client zero_state)
    (t : ℕ) (s : SignupTokenState) where
  abbrev pub used : SignupTokenState
  used = record s { usage_count = s.usage_count + 1 }

  -- where `consume` leaves the actor: one more use is recorded only below the limit
  pub data Uses : ConsumeResponse → W → Type 0 where
    refuses : (r : ConsumeResponse) (w : W) → r.status ≢ consumed → At store t s w → Uses r w
    uses :
        (n : ℕ) (r : ConsumeResponse) (w : W)
        → s.id ≢ ""
        → s.usage_count < s.usage_limit
        → t ≤ n
        → n ≤ s.expires_at
        → r.user_group_ids ≡ s.user_group_ids
        → Written store n s used w
        → Uses r w

  abbrev pub Fails : W → Type 0
  Fails w =
      At store t s w
      ⊎ ((store.view w ≡ used) × (s.usage_count < s.usage_limit) × (t ≤ store.time w))

  data Found (a : SignupTokenState) : Bool → W → Type 0 where
    absent : (w : W) → At store t s w → Found a true w
    present :
        (n : ℕ) (w : W)
        → a ≡ s
        → s.id ≢ ""
        → t ≤ n
        → n ≤ s.expires_at
        → At store n s w
        → Found a false w

  Found-of :
      (a : SignupTokenState) (n : ℕ) (w : W)
      → (a ≡ s) ⊎ (a ≡ zero_state)
      → (a.id == "") ≡ false
      → t ≤ n
      → At store n s w
      → Found a (before a.expires_at n) w
  Found-of a n w (inr gone) stored later here = absurd (ground (arith, eq_iff a.id ""))
  Found-of a n w (inl e) stored later here = elim (Bool-cases (before a.expires_at n)) [
    | inl over ↦ rw over (absent w (here.0, omega arith))
    | inr live ↦ rw live (
        present n w e (rw (← e) (λ p. ground (arith, eq_iff a.id ""))) later
          (rw (← e) (ground arith)) here)
  ]

  is_missing-Triple :
      (a : SignupTokenState)
      → (a ≡ s) ⊎ (a ≡ zero_state)
      → Triple (At store t s) (is_missing client a) (Found a) (At store t s)
  unfolding is_missing
  is_missing-Triple a near =
      Triple-if (a.id == "") (pure true) _ (λ _. Triple-pure true (λ w. absent w))
        (λ stored. Triple-bind _ (read_clock client) _ (read_clock-Triple store t s) λ n.
          Triple-assume _ λ later. Triple-pure _ (λ w here. Found-of a n w near stored later here))

  use_once-Triple :
      (n : ℕ)
      → s.id ≢ ""
      → t ≤ n
      → n ≤ s.expires_at
      → Triple (At store n s) (use_once client s) Uses Fails
  unfolding use_once
  use_once-Triple n stored later before_end =
      Triple-if (leb s.usage_limit s.usage_count) _ _
        (λ _. Triple-pure _ (λ w h. refuses _ w (λ p. cc) (h.0, omega arith)))
        (λ room.
          let below : s.usage_count < s.usage_limit = ground arith in
          Triple-bind _ (set_state client used) _
            (Triple-weaken _ (set_state-Triple store n s used) (λ w h. h) (λ _ w h. h)
              (λ w h. elim h [
                | inl kept ↦ inl (kept.0, omega arith)
                | inr written ↦ inr (written.0, below, omega arith)
              ]))
            λ _. Triple-pure _ (λ w h. uses n _ w stored below later before_end refl h))

  finish_at :
      (a : SignupTokenState) (gone : Bool) (w : W)
      → Found a gone w
      → Ends Uses Fails (
          (if gone
              then pure (record { status = not_found; user_group_ids = [] })
              else use_once client a)
            w)
  finish_at a _ w (absent _ h) = refuses _ w (λ p. cc) h
  finish_at a _ w (present n _ e stored later before_end here) =
      subst (λ (x : SignupTokenState). Ends Uses Fails (use_once client x w)) (sym e)
        ((use_once-Triple n stored later before_end).at w here)

  pub consume-Triple : Triple (At store t s) (consume client) Uses Fails
  unfolding consume
  consume-Triple =
      Triple-bind _ (get_state client) _
        (Triple-weaken _ (get_state-Triple store t s) (λ w h. h) (λ _ w h. h) (λ w h. inl h))
        λ a. Triple-assume _ λ near.
          Triple-bind (Found a) (is_missing client a) _
            (Triple-weaken _ (is_missing-Triple a near) (λ w h. h) (λ _ w h. h) (λ w h. inl h))
            λ gone. record { at = λ w f. finish_at a gone w f }
