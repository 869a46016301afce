-- ===== src/EmailVerification/VerificationActor/Verdicts.antt =====
-- A verification link is taken only with the token it was made for and before its end, and a
-- discarded or restored token never displaces another one (backend/internal/emailverification/actor.go).
use pocket_id.Prelude.{
  ℕ, ◌≤◌, String, Bool, true, false, not, ◌||◌, some, ◌≡◌, ◌≢◌, ◌⊎◌, inl, inr, refl, sym, ap, ◌∙◌,
  subst, arith, ◌==◌, eq_iff, if◌then◌else◌, leb, Bool-cases,
}
use pocket_id.Result.{ok}
use pocket_id.Exec.{pure, wrapping, ◌>>=◌}
use pocket_id.Exec.Triples.{
  Triple, Ends, Triple-pure, Triple-if, Triple-wrapping, Triple-weaken, Triple-assume, Triple-bind,
}
use pocket_id.Actor.{Client, read_clock, before}
use pocket_id.Actor.Store.{
  IsStore, At, Near, read_clock-Triple, get-Triple, set-Triple, delete-Triple,
}
use pocket_id.EmailVerification.VerificationActor.{
  consumed, not_found, State, zero_state, ConsumeResponse, decoded, set_state, get_state,
  mismatches, take, consume_hash, consume, discard_from, discard, restore_over, restore,
}

module _ {W : Type 0} {client : Client State W} (store : IsStore client zero_state) (t : ℕ)
    (s : State) (token_hash : String) where
  -- the two answers of `consume`; the state stays but where the token is taken
  pub data Verdicts : ConsumeResponse → W → Type 0 where
    refused :
        (w : W) → At store t s w → Verdicts (record { status = not_found; state = zero_state }) w
    taken :
        (n : ℕ) (w : W)
        → token_hash ≢ ""
        → s.token_hash ≡ token_hash
        → t ≤ n
        → n ≤ s.expires_at
        → store.view w ≡ zero_state
        → Verdicts (record { status = consumed; state = s }) w

  data Found (a : State) : Bool → W → Type 0 where
    other : (w : W) → At store t s w → Found a true w
    fits :
        (n : ℕ) (w : W)
        → a ≡ s
        → token_hash ≢ ""
        → s.token_hash ≡ token_hash
        → t ≤ n
        → n ≤ s.expires_at
        → At store n s w
        → Found a false w

  Found-of :
      (a : State) (n : ℕ) (w : W)
      → (a ≡ s) ⊎ (a ≡ zero_state)
      → (a.token_hash == "") ≡ false
      → t ≤ n
      → At store n s w
      → Found a (before a.expires_at n || not (a.token_hash == token_hash)) w
  Found-of a n w (inr gone) stored later here = absurd (ground (arith, eq_iff a.token_hash ""))
  Found-of a n w (inl e) stored later here =
      elim (Bool-cases (before a.expires_at n || not (a.token_hash == token_hash))) [
        | inl no_fit ↦ rw no_fit (other w (here.0, omega arith))
        | inr fit ↦
            let hash : a.token_hash ≡ token_hash = ground (arith, eq_iff a.token_hash token_hash) in
            let full : a.token_hash ≢ "" = λ p. ground (arith, eq_iff a.token_hash "") in
            let end : n ≤ a.expires_at = ground arith in
            rw fit (
              fits n w e (λ p. full (hash ∙ p)) (ap (λ (x : State). x.token_hash) (sym e) ∙ hash)
                later (subst (λ (x : State). n ≤ x.expires_at) e end) here)
      ]

  mismatches-Triple :
      (a : State)
      → (a ≡ s) ⊎ (a ≡ zero_state)
      → Triple (At store t s) (mismatches client a token_hash) (Found a) (At store t s)
  unfolding mismatches
  mismatches-Triple a near =
      Triple-if (a.token_hash == "") (pure true) _ (λ _. Triple-pure true (λ w. other w))
        (λ stored. Triple-bind _ (read_clock client) _ (read_clock-Triple store t s) λ n.
          Triple-assume _ λ later. Triple-pure _ (λ w here. Found-of a n w near stored later here))

  take-Triple :
      (n : ℕ)
      → token_hash ≢ ""
      → s.token_hash ≡ token_hash
      → t ≤ n
      → n ≤ s.expires_at
      → Triple (At store n s) (take client s) Verdicts (At store t s)
  unfolding take
  take-Triple n full hash later before_end =
      Triple-bind _ (wrapping _ client.delete_state) _
        (Triple-wrapping _ _ (
          Triple-weaken _ (delete-Triple store n s) (λ w h. h) (λ _ w h. h)
            (λ w h. (h.0, omega arith))))
        λ _. Triple-pure _ λ w h. taken n w full hash later before_end h.0

  answer-At :
      (a : State) (no_fit : Bool) (w : W)
      → Found a no_fit w
      → Ends Verdicts (At store t s) (
          (if no_fit
              then pure (record { status = not_found; state = zero_state })
              else take client a)
            w)
  answer-At a _ w (other _ h) = refused w h
  answer-At a _ w (fits n _ e full hash later before_end here) =
      subst (λ (x : State). Ends Verdicts (At store t s) (take client x w)) (sym e)
        ((take-Triple n full hash later before_end).at w here)

  consume_hash-Triple :
      Triple (At store t s) (consume_hash client token_hash) Verdicts (At store t s)
  unfolding consume_hash get_state
  consume_hash-Triple =
      Triple-bind _ (wrapping _ client.get_state) _ (Triple-wrapping _ _ (get-Triple store t s))
        λ a. Triple-assume _ λ near.
          Triple-bind (Found a) (mismatches client a token_hash) _ (mismatches-Triple a near)
            λ no_fit. record { at = λ w f. answer-At a no_fit w f }

module _ {W : Type 0} {client : Client State W} (store : IsStore client zero_state) where
  -- Every answer of `consume`: the token is refused and what is stored stays; or the hash is not
  -- empty and is the stored one, the token has not expired, and it is deleted.
  pub consume-Verdicts :
      (token_hash : String) (w w' : W) (r : ConsumeResponse)
      → consume client (some (ok token_hash)) w ≡ (ok r, w')
      → Verdicts store (store.time w) (store.view w) token_hash r w'
  unfolding consume decoded ◌>>=◌
  consume-Verdicts d w w' r e =
      subst
        (Ends (Verdicts store (store.time w) (store.view w) d)
          (At store (store.time w) (store.view w)))
        e ((consume_hash-Triple store _ _ d).at w (inl refl, omega arith))

  keeps_other :
      (a s : State) (d : String)
      → s.token_hash ≢ d
      → (a ≡ s) ⊎ (a ≡ zero_state)
      → (a.token_hash == "" || not (a.token_hash == d)) ≡ true
  keeps_other a s d differs (inl e) =
      let h : a.token_hash ≢ d = λ p. differs (ap (λ (x : State). x.token_hash) (sym e) ∙ p) in
      ground (arith, eq_iff a.token_hash d)
  keeps_other a s d differs (inr e) =
      ap (λ (x : State). x.token_hash == "" || not (x.token_hash == d)) e

  discard-Triple :
      (t : ℕ) (s : State) (d : String)
      → s.token_hash ≢ d
      → Triple
          (At store t s)
          (get_state client >>= discard_from client d)
          (λ _. At store t s)
          (At store t s)
  unfolding discard_from get_state
  discard-Triple t s d differs =
      Triple-bind _ (wrapping _ client.get_state) _ (Triple-wrapping _ _ (get-Triple store t s))
        λ a. Triple-assume _ λ near.
          Triple-if (a.token_hash == "" || not (a.token_hash == d)) (pure tt) _
            (λ _. Triple-pure tt (λ w h. h))
            (λ off. absurd (ground (arith, keeps_other a s d differs near)))

  -- Discarding a token leaves another one in place: where the stored hash is not the given one, the
  -- stored state stays unless the host purged it.
  pub discard-State :
      (token_hash : String) (w w' : W)
      → (store.view w).token_hash ≢ token_hash
      → discard client (some (ok token_hash)) w ≡ (ok tt, w')
      → (store.view w' ≡ store.view w) ⊎ (store.view w' ≡ zero_state)
  unfolding discard decoded ◌>>=◌
  discard-State d w w' differs e =
      (subst
        (Ends (λ _. At store (store.time w) (store.view w))
          (At store (store.time w) (store.view w)))
        e ((discard-Triple _ _ d differs).at w (inl refl, omega arith))).0

  set-Triple_live :
      (state : State) (t : ℕ) (s : State)
      → Triple
          (At store t s)
          (set_state client state)
          (λ _ w.
            (store.view w ≡ state)
            ⊎ (At store t s w × ((n : ℕ) × (t ≤ n) × (state.expires_at ≤ n))))
          (λ w. Unit)
  unfolding set_state
  set-Triple_live state t s =
      Triple-bind _ (read_clock client) _
        (Triple-weaken _ (read_clock-Triple store t s) (λ w h. h) (λ _ w h. h) (λ w h. tt))
        λ n. Triple-assume _ λ later.
          Triple-if (leb state.expires_at n) (pure tt) _
            (λ over. Triple-pure tt (λ w h. inr ((h.0, omega arith), (n, later, ground arith))))
            (λ _. Triple-wrapping _ _ (
              Triple-weaken _ (set-Triple store n s state _) (λ w h. h) (λ _ w h. inl h.0)
                (λ w h. tt)))

  restore-Triple :
      (state : State) (t : ℕ) (s : State)
      → Triple
          (At store t s)
          (get_state client >>= restore_over client state)
          (λ _ w.
            (Near store s w × (s.token_hash ≢ ""))
            ⊎ (store.view w ≡ state)
            ⊎ (At store t s w × ((n : ℕ) × (t ≤ n) × (state.expires_at ≤ n))))
          (λ w. Unit)
  unfolding restore_over get_state
  restore-Triple state t s =
      Triple-bind _ (wrapping _ client.get_state) _
        (Triple-wrapping _ _
          (Triple-weaken _ (get-Triple store t s) (λ w h. h) (λ _ w h. h) (λ w h. tt)))
        λ a. Triple-assume _ λ near.
          Triple-if (a.token_hash == "") _ (pure tt)
            (λ _.
              Triple-weaken _ (set-Triple_live state t s) (λ w h. h) (λ _ w h. inr h) (λ w h. h))
            (λ full. Triple-pure tt λ w h. inl (h.0, newer a full near))
    where
      newer :
          (a : State)
          → (a.token_hash == "") ≡ false
          → (a ≡ s) ⊎ (a ≡ zero_state)
          → s.token_hash ≢ ""
      newer a full (inl e) =
          subst (λ (x : State). x.token_hash ≢ "") e (λ p. ground (arith, eq_iff a.token_hash ""))
      newer a full (inr e) = absurd (ground (arith, eq_iff a.token_hash ""))

  taken_state :
      (t : ℕ) (s : State) (d : String) (r : ConsumeResponse) (w' : W)
      → Verdicts store t s d r w'
      → r.status ≡ consumed
      → (r.state ≡ s) × (store.view w' ≡ zero_state)
  taken_state t s d r w' (refused _ _) e = cc
  taken_state t s d r w' (taken n _ _ _ _ _ gone) e = (refl, gone)

  -- The compensation after a failed verification: restoring the state that `consume` handed out puts
  -- it back as it was, unless it is over by then.
  pub restore_after_consume :
      (d : String) (w w₁ w₂ : W) (state : State)
      → consume client (some (ok d)) w ≡ (ok (record { status = consumed; state = state }), w₁)
      → restore client (some (ok state)) w₁ ≡ (ok tt, w₂)
      → (store.view w₂ ≡ store.view w)
        ⊎ ((n : ℕ) × (store.time w₁ ≤ n) × ((store.view w).expires_at ≤ n))
  unfolding restore decoded ◌>>=◌
  restore_after_consume d w w₁ w₂ state first second =
      let (same, gone) = taken_state _ _ d _ w₁ (consume-Verdicts d w w₁ _ first) refl in
      let after =
        subst
          (Ends
            (λ _ v.
              (Near store (store.view w₁) v × ((store.view w₁).token_hash ≢ ""))
              ⊎ (store.view v ≡ state)
              ⊎ (At store (store.time w₁) (store.view w₁) v
                  × ((n : ℕ) × (store.time w₁ ≤ n) × (state.expires_at ≤ n))))
            (λ v. Unit))
          second
          ((restore-Triple state (store.time w₁) (store.view w₁)).at w₁ (inl refl, omega arith)) in
      elim after [
        | inl (_, full) ↦ absurd (full (ap (λ (x : State). x.token_hash) gone))
        | inr (inl back) ↦ inl (back ∙ same)
        | inr (inr (_, (n, later, over))) ↦ inr (n, later, rw (← same) over)
      ]
