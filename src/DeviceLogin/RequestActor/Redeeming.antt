-- ===== src/DeviceLogin/RequestActor/Redeeming.antt =====
-- `consume` hands an approved request out once, and only to the device that opened it
-- (backend/internal/devicelogin/actor.go).
use pocket_id.Prelude.{
  ℕ, ◌≤◌, ◌<◌, String, Bool, true, false, not, ◌||◌, ◌≡◌, ◌≢◌, ◌⊎◌, inl, inr, refl, sym, subst,
  arith, ◌==◌, eq_iff, if◌then◌else◌, Bool-cases,
}
use pocket_id.Exec.{pure, wrapping}
use pocket_id.Exec.Triples.{
  Triple, Ends, Triple-pure, Triple-if, Triple-wrapping, Triple-weaken, Triple-assume, Triple-bind,
}
use pocket_id.Actor.{Client, read_clock, after}
use pocket_id.Actor.Store.{IsStore, At, read_clock-Triple, delete-Triple}
use pocket_id.DeviceLogin.RequestActor.{
  RequestStatus, approved, none, State, zero_state, Reply, invalid_reply, load_state, redeem,
  refused, consume_status, consume,
}
use pocket_id.DeviceLogin.RequestActor.Transitions.{load_state-Triple}

-- the reply that lets the caller mint a session
abbrev pub is_grant : Reply → Bool
is_grant r = elim r.code [ none ↦ elim r.status [ approved ↦ true | _ ↦ false ] | _ ↦ false ]

module _ {W : Type 0} {client : Client State W} (store : IsStore client zero_state) (t : ℕ)
    (s : State) (device_token_hash : String) where
  pub data Redeems : Reply → W → Type 0 where
    withheld : (r : Reply) (w : W) → is_grant r ≡ false → At store t s w → Redeems r w
    redeemed :
        (n : ℕ) (r : Reply) (w : W)
        → s.code ≢ ""
        → s.device_token_hash ≡ device_token_hash
        → s.status ≡ approved
        → s.user_id ≢ ""
        → t ≤ n
        → n < s.expires_at
        → store.view w ≡ zero_state
        → Redeems r w

  -- what `refused` establishes where it lets the request on
  data Checked (a : State) : Bool → W → Type 0 where
    over : (w : W) → At store t s w → Checked a true w
    usable :
        (n : ℕ) (w : W)
        → a ≡ s
        → s.code ≢ ""
        → s.device_token_hash ≡ device_token_hash
        → t ≤ n
        → n < s.expires_at
        → At store n s w
        → Checked a false w

  Checked-of :
      (a : State) (n : ℕ) (w : W)
      → ((a ≡ s) ⊎ (a ≡ zero_state))
      → (a.code == "" || not (a.device_token_hash == device_token_hash)) ≡ false
      → t ≤ n
      → At store n s w
      → Checked a (not (after a.expires_at n)) w
  Checked-of a n w (inr gone) bound later here = absurd (ground (arith, eq_iff a.code ""))
  Checked-of a n w (inl e) bound later here = elim (Bool-cases (after a.expires_at n)) [
    | inr ended ↦ rw ended (over w (here.0, omega arith))
    | inl live ↦ rw live (
        usable n w e (λ p. ground (arith, eq_iff a.code ""))
          (ground (arith, eq_iff a.device_token_hash device_token_hash)) later
          (rw (← e) (ground arith)) here)
  ]

  refused-Triple :
      (a : State)
      → ((a ≡ s) ⊎ (a ≡ zero_state))
      → Triple (At store t s) (refused client a device_token_hash) (Checked a) (At store t s)
  unfolding refused
  refused-Triple a near =
      Triple-if (a.code == "" || not (a.device_token_hash == device_token_hash)) _ _
        (λ _. Triple-pure true (λ w. over w))
        (λ bound. Triple-bind _ (read_clock client) _ (read_clock-Triple store t s) λ n.
          Triple-assume _ λ later. Triple-pure _ (λ w here. Checked-of a n w near bound later here))

  redeem-Triple :
      (n : ℕ)
      → s.code ≢ ""
      → s.device_token_hash ≡ device_token_hash
      → s.status ≡ approved
      → t ≤ n
      → n < s.expires_at
      → Triple (At store n s) (redeem client s) Redeems (At store t s)
  unfolding redeem
  redeem-Triple n stored bound granted later before_end =
      Triple-if (s.user_id == "") _ _
        (λ _. Triple-pure _ (λ w h. withheld invalid_reply w refl (h.0, omega arith)))
        (λ owned.
          Triple-bind _ (wrapping _ client.delete_state) _
            (Triple-wrapping _ _ (
              Triple-weaken _ (delete-Triple store n s) (λ w h. h) (λ _ w h. h)
                (λ w h. (h.0, omega arith))))
            λ _. Triple-pure _ λ w h.
              redeemed n _ w stored bound granted (λ e. ground (arith, eq_iff s.user_id "")) later
                before_end h.0)

  consume_status-Triple :
      (n : ℕ) (status : RequestStatus)
      → s.status ≡ status
      → s.code ≢ ""
      → s.device_token_hash ≡ device_token_hash
      → t ≤ n
      → n < s.expires_at
      → Triple (At store n s) (consume_status client status s) Redeems (At store t s)
  unfolding consume_status
  consume_status-Triple n approved e stored bound later before_end =
      redeem-Triple n stored bound e later before_end
  consume_status-Triple n _ e stored bound later before_end =
      Triple-pure _ (λ w h. withheld _ w refl (h.0, omega arith))

  finish-At :
      (a : State) (refusal : Bool) (w : W)
      → Checked a refusal w
      → Ends Redeems
          (At store t s)
          ((if refusal then pure invalid_reply else consume_status client a.status a) w)
  finish-At a _ w (over _ h) = withheld invalid_reply w refl h
  finish-At a _ w (usable n _ e stored bound later before_end here) =
      subst (λ (x : State). Ends Redeems (At store t s) (consume_status client x.status x w))
        (sym e) ((consume_status-Triple n s.status refl stored bound later before_end).at w here)

  pub consume-Triple :
      Triple (At store t s) (consume client device_token_hash) Redeems (At store t s)
  unfolding consume
  consume-Triple = Triple-bind _ (load_state client) _ (load_state-Triple store t s) λ a.
      Triple-assume _ λ near.
        Triple-bind (Checked a) (refused client a device_token_hash) _ (refused-Triple a near)
          λ refusal. record { at = λ w c. finish-At a refusal w c }
