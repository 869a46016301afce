-- ===== src/OneTimeAccess/TokenActor/Redeeming.antt =====
-- A login code is redeemed at most once, before it expires, and on the device it was made for
-- (backend/internal/onetimeaccess/actor.go).
use pocket_id.Prelude.{
  ℕ, ◌≤◌, String, Bool, true, false, Option, none, some, ◌≡◌, ◌≢◌, ◌⊎◌, inl, inr, sym, subst, arith,
  ◌==◌, eq_iff, if◌then◌else◌, Bool-cases,
}
use pocket_id.Exec.{pure, wrapping}
use pocket_id.Exec.Triples.{
  Triple, Ends, Triple-pure, Triple-if, Triple-wrapping, Triple-weaken, Triple-assume, Triple-bind,
}
use pocket_id.Actor.{Client, read_clock, before}
use pocket_id.Actor.Store.{IsStore, At, read_clock-Triple, get-Triple, delete-Triple}
use pocket_id.OneTimeAccess.TokenActor.{
  consumed, not_found, device_mismatch, TokenState, zero_state, ConsumeResponse, mismatches,
  is_missing, redeem, consume_with,
}

-- the token names no device, or this one
abbrev pub FitsDevice : Option String → String → Type 0
FitsDevice none device_token = Unit
FitsDevice (some expected) device_token = device_token ≡ expected

fits_of : (o : Option String) (d : String) → mismatches o d ≡ false → FitsDevice o d
fits_of none d h = tt
fits_of (some e) d h = ground (arith, eq_iff d e)

mismatch_of : (o : Option String) (d : String) → mismatches o d ≡ true → ¬ FitsDevice o d
mismatch_of none d h = cc
mismatch_of (some e) d h = λ p. ground (arith, eq_iff d e)

module _ {W : Type 0} {client : Client TokenState W} (store : IsStore client zero_state) (t : ℕ)
    (s : TokenState) (device_token : String) where
  -- the three answers of `consume`; the state stays but where the token is redeemed
  pub data Answers : ConsumeResponse → W → Type 0 where
    missing :
        (w : W) → At store t s w → Answers (record { status = not_found; state = zero_state }) w
    elsewhere :
        (w : W)
        → ¬ FitsDevice s.device_token device_token
        → At store t s w
        → Answers (record { status = device_mismatch; state = zero_state }) w
    redeemed :
        (n : ℕ) (w : W)
        → s.user_id ≢ ""
        → FitsDevice s.device_token device_token
        → t ≤ n
        → n ≤ s.expires_at
        → store.view w ≡ zero_state
        → Answers (record { status = consumed; state = s }) w

  data Found (a : TokenState) : Bool → W → Type 0 where
    absent : (w : W) → At store t s w → Found a true w
    present :
        (n : ℕ) (w : W)
        → a ≡ s
        → s.user_id ≢ ""
        → t ≤ n
        → n ≤ s.expires_at
        → At store n s w
        → Found a false w

  Found-of :
      (a : TokenState) (n : ℕ) (w : W)
      → (a ≡ s) ⊎ (a ≡ zero_state)
      → (a.user_id == "") ≡ false
      → t ≤ n
      → At store n s w
      → Found a (before a.expires_at n) w
  Found-of a n w (inr gone) stored later here = absurd (ground (arith, eq_iff a.user_id ""))
  Found-of a n w (inl e) stored later here = elim (Bool-cases (before a.expires_at n)) [
    | inl over ↦ rw over (absent w (here.0, omega arith))
    | inr live ↦ rw live (
        present n w e (rw (← e) (λ p. ground (arith, eq_iff a.user_id ""))) later
          (rw (← e) (ground arith)) here)
  ]

  is_missing-Triple :
      (a : TokenState)
      → (a ≡ s) ⊎ (a ≡ zero_state)
      → Triple (At store t s) (is_missing client a) (Found a) (At store t s)
  unfolding is_missing
  is_missing-Triple a near =
      Triple-if (a.user_id == "") (pure true) _ (λ _. Triple-pure true (λ w. absent w))
        (λ stored. Triple-bind _ (read_clock client) _ (read_clock-Triple store t s) λ n.
          Triple-assume _ λ later. Triple-pure _ (λ w here. Found-of a n w near stored later here))

  redeem-Triple :
      (n : ℕ)
      → s.user_id ≢ ""
      → t ≤ n
      → n ≤ s.expires_at
      → Triple (At store n s) (redeem client s device_token) Answers (At store t s)
  unfolding redeem
  redeem-Triple n stored later before_end =
      Triple-if (mismatches s.device_token device_token) _ _
        (λ other. Triple-pure _ (λ w h. elsewhere w (mismatch_of _ _ other) (h.0, omega arith)))
        (λ fits.
          Triple-bind _ (wrapping _ client.delete_state) _
            (Triple-wrapping _ _ (
              Triple-weaken _ (delete-Triple store n s) (λ w h. h) (λ _ w h. h)
                (λ w h. (h.0, omega arith))))
            λ _. Triple-pure _ λ w h. redeemed n w stored (fits_of _ _ fits) later before_end h.0)

  answer-At :
      (a : TokenState) (gone : Bool) (w : W)
      → Found a gone w
      → Ends Answers (At store t s) (
          (if gone
              then pure (record { status = not_found; state = zero_state })
              else redeem client a device_token)
            w)
  answer-At a _ w (absent _ h) = missing w h
  answer-At a _ w (present n _ e stored later before_end here) =
      subst (λ (x : TokenState). Ends Answers (At store t s) (redeem client x device_token w))
        (sym e) ((redeem-Triple n stored later before_end).at w here)

  pub consume_with-Triple :
      Triple (At store t s) (consume_with client device_token) Answers (At store t s)
  unfolding consume_with
  consume_with-Triple =
      Triple-bind _ (wrapping _ client.get_state) _ (Triple-wrapping _ _ (get-Triple store t s))
        λ a. Triple-assume _ λ near.
          Triple-bind (Found a) (is_missing client a) _ (is_missing-Triple a near)
            λ gone. record { at = λ w f. answer-At a gone w f }
