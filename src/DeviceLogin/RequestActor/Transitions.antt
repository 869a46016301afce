-- ===== src/DeviceLogin/RequestActor/Transitions.antt =====
-- How each method of the request actor moves the stored request, whatever the outcome of the host's
-- calls (backend/internal/devicelogin/actor.go).
use pocket_id.Prelude.{
  ℕ, ◌≤◌, ◌<◌, String, Bool, true, false, not, ◌≡◌, ◌≢◌, ◌⊎◌, inl, inr, refl, sym, subst, arith,
  ◌==◌, eq_iff, leb, Bool-cases,
}
use pocket_id.Exec.Triples.{
  Triple, Ends, Triple-pure, Triple-raise, Triple-if, Triple-wrapping, Triple-weaken, Triple-assume,
  Triple-bind,
}
use pocket_id.Actor.{Client, read_clock, after}
use pocket_id.Actor.Store.{IsStore, At, Near, read_clock-Triple, get-Triple, set-Triple}
use pocket_id.DeviceLogin.RequestActor.{
  RequestStatus, pending, approved, denied, none, State, zero_state, Reply, reply, invalid_reply,
  DecisionInput, is_pending, load_state, live_state, persist_state, commit, decide_on, decide,
}

-- One method other than `create` may leave the stored request, find it purged, or decide it, and it
-- decides only a stored request that is still pending.
pub data Next (s : State) : State → Type 0 where
  stays : {s' : State} → s' ≡ s → Next s s'
  purged : {s' : State} → s' ≡ zero_state → Next s s'
  decided :
      {s' : State} (status : RequestStatus) (user : String)
      → s.code ≢ ""
      → s.status ≡ pending
      → (status ≡ approved) ⊎ (status ≡ denied)
      → s' ≡ record s { status = status; user_id = user }
      → Next s s'

pending_of : (status : RequestStatus) → not (is_pending status) ≡ false → status ≡ pending
pending_of pending h = refl
pending_of _ h = cc

module _ {W : Type 0} {client : Client State W} (store : IsStore client zero_state) (t : ℕ)
    (s : State) where
  pub load_state-Triple :
      Triple
        (At store t s)
        (load_state client)
        (λ a w. At store t s w × ((a ≡ s) ⊎ (a ≡ zero_state)))
        (At store t s)
  unfolding load_state
  load_state-Triple = Triple-wrapping _ _ (get-Triple store t s)

  -- what `live_state` returns: a state that is not live, or the stored one at a time before its end
  pub data Live : State × Bool → W → Type 0 where
    dead : (a : State) (w : W) → At store t s w → Live (a, false) w
    alive :
        (a : State) (n : ℕ) (w : W)
        → a ≡ s
        → t ≤ n
        → At store n s w
        → s.code ≢ ""
        → n < s.expires_at
        → Live (a, true) w

  Live-of :
      (a : State) (n : ℕ) (w : W)
      → ((a ≡ s) ⊎ (a ≡ zero_state))
      → (a.code == "") ≡ false
      → t ≤ n
      → At store n s w
      → Live (a, after a.expires_at n) w
  Live-of a n w (inr gone) stored later here = absurd (ground (arith, eq_iff a.code ""))
  Live-of a n w (inl same) stored later here = elim (Bool-cases (after a.expires_at n)) [
    | inl live ↦ rw live (
        alive a n w same later here (λ e. ground (arith, eq_iff a.code ""))
          (rw (← same) (ground arith)))
    | inr over ↦ rw over (dead a w (ground arith))
  ]

  pub live_state-Triple : Triple (At store t s) (live_state client) Live (At store t s)
  unfolding live_state
  live_state-Triple = Triple-bind _ (load_state client) _ load_state-Triple λ a.
      Triple-assume _ λ near.
        Triple-if (a.code == "") _ _ (λ _. Triple-pure (a, false) (λ w. dead a w))
          (λ stored.
            Triple-bind _ (read_clock client) _
              (Triple-weaken (read_clock client) (read_clock-Triple store t s) (λ w h. h)
                (λ n w h. h) (λ w h. h))
              λ n.
                Triple-assume _
                  λ later. Triple-pure _ (λ w here. Live-of a n w near stored later here))

  pub Next-of_Near : (w : W) → Near store s w → Next s (store.view w)
  Next-of_Near w (inl e) = stays e
  Next-of_Near w (inr e) = purged e

  pub Next-of_At : (n : ℕ) (w : W) → At store n s w → Next s (store.view w)
  Next-of_At n w h = Next-of_Near w h.0

  pub persist_state-Triple :
      (next : State)
      → Triple
          (At store t s)
          (persist_state client next)
          (λ _ w. (store.view w ≡ next) × (t ≤ store.time w))
          (λ w. Near store s w ⊎ (store.view w ≡ next))
  unfolding persist_state
  persist_state-Triple next =
      Triple-bind _ (read_clock client) _
        (Triple-weaken (read_clock client) (read_clock-Triple store t s) (λ w h. h) (λ n w h. h)
          (λ w h. inl h.0))
        λ n. Triple-assume _ λ later.
          Triple-if (leb next.expires_at n) _ _ (λ _. Triple-raise _ (λ w h. inl h.0))
            (λ _. Triple-wrapping _ _ (
              Triple-weaken _ (set-Triple store n s next _) (λ w h. h) (λ _ w h. (h.0, omega arith))
                (λ w h. h.0)))

module _ {W : Type 0} {client : Client State W} (store : IsStore client zero_state) (t : ℕ)
    (s : State) where
  -- what `decide` answers, and where it leaves the request
  pub data Decides (input : DecisionInput) : Reply → W → Type 0 where
    ignored : (w : W) → At store t s w → Decides input invalid_reply w
    settled :
        (status : RequestStatus) (user : String) (n : ℕ) (w : W)
        → s.code ≢ ""
        → s.status ≡ pending
        → t ≤ n
        → n < s.expires_at
        → ((status ≡ denied) × (input.decision ≡ "deny") × (user ≡ s.user_id))
          ⊎ ((status ≡ approved) × (input.decision ≡ "approve") × (user ≡ input.user_id))
        → store.view w ≡ record s { status = status; user_id = user }
        → Decides input (reply none status s.expires_at) w

  settles :
      (input : DecisionInput) (status : RequestStatus) (user : String) (n : ℕ)
      → s.code ≢ ""
      → s.status ≡ pending
      → t ≤ n
      → n < s.expires_at
      → (status ≡ approved) ⊎ (status ≡ denied)
      → ((status ≡ denied) × (input.decision ≡ "deny") × (user ≡ s.user_id))
        ⊎ ((status ≡ approved) × (input.decision ≡ "approve") × (user ≡ input.user_id))
      → Triple
          (At store n s)
          (commit client (record s { status = status; user_id = user }))
          (Decides input)
          (λ w. Next s (store.view w))
  unfolding commit
  settles input status user n stored open_request later before_end final choice =
      let next = record s { status = status; user_id = user } in
      Triple-bind _ (persist_state client next) _
        (Triple-weaken _ (persist_state-Triple store n s next) (λ w h. h) (λ _ w h. h)
          (λ w h. elim h [
            | inl near ↦ Next-of_Near store t s w near
            | inr written ↦ decided status user stored open_request final written
          ]))
        λ _.
          Triple-pure _
            (λ w h. settled status user n w stored open_request later before_end choice h.0)

  decide_live :
      (input : DecisionInput) (n : ℕ)
      → s.code ≢ ""
      → t ≤ n
      → n < s.expires_at
      → Triple
          (At store n s)
          (decide_on client input (s, true))
          (Decides input)
          (λ w. Next s (store.view w))
  unfolding decide_on
  decide_live input n stored later before_end =
      Triple-if (not (is_pending s.status)) _ _
        (λ _. Triple-pure _ (λ w h. ignored w (h.0, omega arith)))
        (λ waits.
          let open_request : s.status ≡ pending = pending_of s.status waits in
          Triple-if (input.decision == "deny") _ _
            (λ said.
              settles input RequestStatus.denied s.user_id n stored open_request later before_end
                (inr refl) (inl (refl, (eq_iff _ _).0 said, refl)))
            (λ _.
              Triple-if (input.decision == "approve") _ _
                (λ said.
                  settles input approved input.user_id n stored open_request later before_end
                    (inl refl) (inr (refl, (eq_iff _ _).0 said, refl)))
                (λ _. Triple-raise _ (λ w h. Next-of_Near store t s w h.0))))

  decide_at :
      (input : DecisionInput) (p : State × Bool) (w : W)
      → Live store t s p w
      → Ends (Decides input) (λ w. Next s (store.view w)) (decide_on client input p w)
  decide_at input p w (dead a _ h) = unfold decide_on in ignored w h
  decide_at input p w (alive a n _ e later here stored before_end) =
      subst
        (λ a.
          Ends (Decides input) (λ w. Next s (store.view w)) (decide_on client input (a, true) w))
        (sym e) ((decide_live input n stored later before_end).at w here)

  pub decide-Triple :
      (input : DecisionInput)
      → Triple (At store t s) (decide client input) (Decides input) (λ w. Next s (store.view w))
  unfolding decide
  decide-Triple input =
      Triple-bind (Live store t s) (live_state client) _
        (Triple-weaken _ (live_state-Triple store t s) (λ w h. h) (λ _ w h. h)
          (Next-of_At store t s t))
        λ p. record { at = λ w l. decide_at input p w l }
