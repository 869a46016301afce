-- ===== src/DeviceLogin/RequestActor/Opening.antt =====
-- `create` never replaces a live request, and `inspect` and `poll` change nothing
-- (backend/internal/devicelogin/actor.go).
use pocket_id.Prelude.{
  ℕ, ◌+◌, ◌≤◌, ◌<◌, String, Bool, true, false, not, ◌||◌, ◌≡◌, ◌≢◌, ◌⊎◌, inl, inr, ap, arith, ◌==◌,
  eq_iff, if◌then◌else◌, Bool-cases,
}
use pocket_id.Exec.{pure}
use pocket_id.Exec.Triples.{
  Triple, Ends, Triple-pure, Triple-if, Triple-weaken, Triple-assume, Triple-bind,
}
use pocket_id.Actor.{Client, read_clock, round_second, after}
use pocket_id.Actor.Store.{IsStore, At, Near, read_clock-Triple}
use pocket_id.DeviceLogin.RequestActor.{
  RequestStatus, unset, pending, approved, none, collision, State, zero_state, Reply, is_pending,
  reply, invalid_reply, CreateInput, request_duration, fresh, load_state, live_state, persist_state,
  collides, initialize, create, inspect, poll, poll_status, unless_over,
}
use pocket_id.DeviceLogin.RequestActor.Transitions.{
  load_state-Triple, live_state-Triple, persist_state-Triple, Live, dead, alive,
}

module _ {W : Type 0} {client : Client State W} (store : IsStore client zero_state) (t : ℕ)
    (s : State) where
  At-of_Live : (p : State × Bool) (w : W) → Live store t s p w → At store t s w
  At-of_Live p w (dead a _ h) = h
  At-of_Live p w (alive a n _ _ later here _ _) = (here.0, omega arith)

  pub inspect-Triple : Triple (At store t s) (inspect client) (λ r w. At store t s w) (At store t s)
  unfolding inspect
  inspect-Triple =
      Triple-bind (Live store t s) (live_state client) _ (live_state-Triple store t s) λ p.
        Triple-weaken _
          (Triple-if (not p.1 || not (is_pending p.0.status)) _ _ (λ _. Triple-pure _ (λ w h. h))
            (λ _. Triple-pure _ (λ w h. h)))
          (At-of_Live p) (λ _ w h. h) (λ w h. h)

  unless_over-Triple :
      (a : State) (r : Reply)
      → Triple (At store t s) (unless_over client a r) (λ r w. At store t s w) (At store t s)
  unfolding unless_over
  unless_over-Triple a r = Triple-bind _ (read_clock client) _ (read_clock-Triple store t s) λ n.
      Triple-assume _ λ later.
        Triple-if (after a.expires_at n) _ _ (λ _. Triple-pure _ (λ w h. (h.0, omega arith)))
          (λ _. Triple-pure _ (λ w h. (h.0, omega arith)))

  poll_status-Triple :
      (status : RequestStatus) (a : State)
      → Triple (At store t s) (poll_status client status a) (λ r w. At store t s w) (At store t s)
  unfolding poll_status
  poll_status-Triple pending a = unless_over-Triple a _
  poll_status-Triple approved a =
      Triple-if (a.user_id == "") _ _ (λ _. Triple-pure _ (λ w h. h)) (λ _. unless_over-Triple a _)
  poll_status-Triple RequestStatus.denied a = unless_over-Triple a _
  poll_status-Triple unset a = Triple-pure _ (λ w h. h)

  pub poll-Triple :
      (hash : String)
      → Triple (At store t s) (poll client hash) (λ r w. At store t s w) (At store t s)
  unfolding poll
  poll-Triple hash = Triple-bind _ (load_state client) _ (load_state-Triple store t s) λ a.
      Triple-assume _ λ _.
        Triple-if (a.code == "" || not (a.device_token_hash == hash)) (pure invalid_reply) _
          (λ _. Triple-pure invalid_reply (λ w h. h)) (λ _. poll_status-Triple a.status a)

  -- where `create` leaves the actor: a live request stays, and anything else makes room
  pub data Creates (input : CreateInput) : Reply → W → Type 0 where
    rejects :
        (w : W)
        → (input.code ≡ "") ⊎ (input.device_token_hash ≡ "")
        → At store t s w
        → Creates input invalid_reply w
    collides_with :
        (n : ℕ) (w : W)
        → s.code ≢ ""
        → t ≤ n
        → n < s.expires_at
        → At store t s w
        → Creates input (reply collision unset 0) w
    -- the state `a` that the host answered is empty, or over at a time after the call
    opens :
        (a : State) (m n : ℕ) (w : W)
        → (a ≡ s) ⊎ (a ≡ zero_state)
        → (a.code ≡ "") ⊎ (a.expires_at ≤ m)
        → t ≤ m
        → m ≤ n
        → store.view w ≡ fresh input (round_second n + request_duration)
        → Creates input (reply none pending (round_second n + request_duration)) w

  -- where a failed `create` leaves the actor
  abbrev pub Spoiled : CreateInput → W → Type 0
  Spoiled input w =
      Near store s w
      ⊎ ((n : ℕ) × (t ≤ n) × (store.view w ≡ fresh input (round_second n + request_duration)))

  -- what `collides` answers about the state that was read
  data Room (a : State) : Bool → W → Type 0 where
    taken :
        (n : ℕ) (w : W) → a.code ≢ "" → t ≤ n → n < a.expires_at → At store t s w → Room a true w
    free :
        (m : ℕ) (w : W)
        → (a.code ≡ "") ⊎ (a.expires_at ≤ m)
        → t ≤ m
        → At store m s w
        → Room a false w

  Room-of :
      (a : State) (n : ℕ) (w : W)
      → (a.code == "") ≡ false
      → t ≤ n
      → At store n s w
      → Room a (after a.expires_at n) w
  Room-of a n w stored later here = elim (Bool-cases (after a.expires_at n)) [
    | inl live ↦ rw live (
        taken n w (λ e. ground (arith, eq_iff a.code "")) later (ground arith)
          (here.0, omega arith))
    | inr over ↦ rw over (free n w (inr (ground arith)) later here)
  ]

  Room-of_time : (a : State) (w : W) → a.code ≡ "" → At store t s w → Room a false w
  Room-of_time a w e h = free t w (inl e) (omega arith) h

  collides-Triple : (a : State) → Triple (At store t s) (collides client a) (Room a) (At store t s)
  unfolding collides
  collides-Triple a =
      Triple-if (a.code == "") (pure false) _
        (λ empty. Triple-pure false (λ w h. Room-of_time a w ((eq_iff a.code "").0 empty) h))
        (λ stored.
          Triple-bind _ (read_clock client) _ (read_clock-Triple store t s)
            λ n. Triple-assume _ λ later. Triple-pure _ (λ w here. Room-of a n w stored later here))

  initialize-Triple :
      (input : CreateInput) (a : State) (m : ℕ)
      → (a ≡ s) ⊎ (a ≡ zero_state)
      → (a.code ≡ "") ⊎ (a.expires_at ≤ m)
      → t ≤ m
      → Triple (At store m s) (initialize client input) (Creates input) (Spoiled input)
  unfolding initialize
  initialize-Triple input a m near room later =
      Triple-bind _ (read_clock client) _
        (Triple-weaken _ (read_clock-Triple store m s) (λ w h. h) (λ _ w h. h) (λ w h. inl h.0))
        λ n. Triple-assume _ λ past.
          let next = fresh input (round_second n + request_duration) in
          Triple-bind _ (persist_state client next) _
            (Triple-weaken _ (persist_state-Triple store n s next) (λ w h. h) (λ _ w h. h)
              (λ w h. elim h [
                | inl keeps ↦ inl keeps
                | inr written ↦ inr (n, omega arith, written)
              ]))
            λ _. Triple-pure _ (λ w h. opens a m n w near room later past h.0)

  create_at :
      (input : CreateInput) (a : State) (full : Bool) (w : W)
      → (a ≡ s) ⊎ (a ≡ zero_state)
      → Room a full w
      → Ends
          (Creates input)
          (Spoiled input)
          ((if full then pure (reply collision unset 0) else initialize client input) w)
  create_at input a _ w (inl e) (taken n _ stored later live h) =
      collides_with n w (rw (← e) stored) later (rw (← e) live) h
  create_at input a _ w (inr e) (taken n _ stored later live h) =
      absurd (stored (ap (λ (x : State). x.code) e))
  create_at input a _ w near (free m _ room later h) =
      (initialize-Triple input a m near room later).at w h

  pub create-Triple :
      (input : CreateInput)
      → Triple (At store t s) (create client input) (Creates input) (Spoiled input)
  unfolding create
  create-Triple input =
      Triple-if (input.code == "" || input.device_token_hash == "") (pure invalid_reply) _
        (λ blank. Triple-pure invalid_reply (λ w h.
          rejects w (ground (arith, eq_iff input.code "", eq_iff input.device_token_hash "")) h))
        (λ _.
          Triple-bind _ (load_state client) _
            (Triple-weaken _ (load_state-Triple store t s) (λ w h. h) (λ _ w h. h) (λ w h. inl h.0))
            λ a. Triple-assume _ λ near.
              Triple-bind (Room a) (collides client a) _
                (Triple-weaken _ (collides-Triple a) (λ w h. h) (λ _ w h. h) (λ w h. inl h.0))
                λ full. record { at = λ w h. create_at input a full w near h })
