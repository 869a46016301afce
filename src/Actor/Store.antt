-- ===== src/Actor/Store.antt =====
-- What the actors rely on in their host, as laws over a view of the stored state, and the laws as
-- pre- and postconditions of the client's operations.
use pocket_id.Prelude.{ℕ, ◌≤◌, ◌≡◌, ◌⊎◌, inl, inr, arith}
use pocket_id.Result.{Result, ok, err}
use pocket_id.Exec.Triples.{Triple, Ends, Triple-weaken}
use pocket_id.Actor.{Client, read_clock}

-- The host kept the state, or purged it, and the clock did not go back.
abbrev pub Kept : {S W : Type 0} → S → (W → S) → (W → ℕ) → W → W → Type 0
Kept zero_state view time w w' = ((view w' ≡ view w) ⊎ (view w' ≡ zero_state)) × (time w ≤ time w')

-- `view` is what the host keeps for the actor, the zero value where it keeps nothing, and `time` is
-- the last reading of the clock. The host purges a state whose TTL is over, so the view may become
-- zero between any two operations. Of a failed write nothing is assumed but that it stored the new
-- state, or left the old one, or that this was purged.
pub record IsStore {S W : Type 0} (client : Client S W) (zero_state : S) : Type 0 where
  pub view : W → S
  pub time : W → ℕ
  pub now_law :
      (w : W)
      → Kept zero_state view time w (client.now w).1 × ((client.now w).0 ≡ time (client.now w).1)
  pub get_law :
      (w : W)
      → Ends
          (λ s w'. Kept zero_state view time w w' × (s ≡ view w'))
          (Kept zero_state view time w)
          (client.get_state w)
  pub set_law :
      (s : S) (ttl : ℕ) (w : W)
      → Ends
          (λ _ w'. (view w' ≡ s) × (time w ≤ time w'))
          (λ w'. ((view w' ≡ view w) ⊎ (view w' ≡ zero_state) ⊎ (view w' ≡ s)) × (time w ≤ time w'))
          (client.set_state s ttl w)
  pub delete_law :
      (w : W)
      → Ends
          (λ _ w'. (view w' ≡ zero_state) × (time w ≤ time w'))
          (Kept zero_state view time w)
          (client.delete_state w)

module _ {S W : Type 0} {client : Client S W} {zero_state : S}
    (store : IsStore client zero_state) where
  -- the state is still `s`, unless it was purged
  abbrev pub Near : S → W → Type 0
  Near s w = (store.view w ≡ s) ⊎ (store.view w ≡ zero_state)

  abbrev pub At : ℕ → S → W → Type 0
  At t s w = Near s w × (t ≤ store.time w)

  module _ (t : ℕ) (s : S) where
    pub read_clock-Triple : Triple (At t s) (read_clock client) (λ n w. At n s w × (t ≤ n)) (At t s)
    read_clock-Triple = record { at = λ w p. let h = store.now_law w in ground arith }

    get-At :
        (w : W) (r : Result S × W)
        → At t s w
        → Ends
            (λ a w'. Kept zero_state store.view store.time w w' × (a ≡ store.view w'))
            (Kept zero_state store.view store.time w)
            r
        → Ends
            (λ a w'. At t s w' × ((a ≡ s) ⊎ ((a ≡ zero_state) × (store.view w' ≡ zero_state))))
            (At t s)
            r
    get-At w (ok a, w') p h = ground arith
    get-At w (err e, w') p h = ground arith

    -- the answer is the state, or the zero state, and then the state is gone
    pub get-Triple_gone :
        Triple
          (At t s)
          client.get_state
          (λ a w. At t s w × ((a ≡ s) ⊎ ((a ≡ zero_state) × (store.view w ≡ zero_state))))
          (At t s)
    get-Triple_gone = record { at = λ w p. get-At w (client.get_state w) p (store.get_law w) }

    pub get-Triple :
        Triple (At t s) client.get_state (λ a w. At t s w × ((a ≡ s) ⊎ (a ≡ zero_state))) (At t s)
    get-Triple =
        Triple-weaken client.get_state get-Triple_gone (λ w h. h)
          (λ a w h. (h.0, elim h.1 [ inl e ↦ inl e | inr (e, _) ↦ inr e ])) (λ w h. h)

    delete-At :
        (w : W) (r : Result (Unit {0}) × W)
        → At t s w
        → Ends
            (λ _ w'. (store.view w' ≡ zero_state) × (store.time w ≤ store.time w'))
            (Kept zero_state store.view store.time w)
            r
        → Ends (λ _ w'. (store.view w' ≡ zero_state) × (t ≤ store.time w')) (At t s) r
    delete-At w (ok a, w') p h = ground arith
    delete-At w (err e, w') p h = ground arith

    pub delete-Triple :
        Triple
          (At t s)
          client.delete_state
          (λ _ w. (store.view w ≡ zero_state) × (t ≤ store.time w))
          (At t s)
    delete-Triple = record {
      at = λ w p. delete-At w (client.delete_state w) p (store.delete_law w);
    }

    module _ (next : S) (ttl : ℕ) where
      set-At :
          (w : W) (r : Result (Unit {0}) × W)
          → At t s w
          → Ends
              (λ _ w'. (store.view w' ≡ next) × (store.time w ≤ store.time w'))
              (λ w'.
                ((store.view w' ≡ store.view w)
                  ⊎ (store.view w' ≡ zero_state)
                  ⊎ (store.view w' ≡ next))
                × (store.time w ≤ store.time w'))
              r
          → Ends
              (λ _ w'. (store.view w' ≡ next) × (t ≤ store.time w'))
              (λ w'. (Near s w' ⊎ (store.view w' ≡ next)) × (t ≤ store.time w'))
              r
      set-At w (ok a, w') p h = ground arith
      set-At w (err e, w') p h = ground arith

      pub set-Triple :
          Triple
            (At t s)
            (client.set_state next ttl)
            (λ _ w. (store.view w ≡ next) × (t ≤ store.time w))
            (λ w. (Near s w ⊎ (store.view w ≡ next)) × (t ≤ store.time w))
      set-Triple = record {
        at = λ w p. set-At w (client.set_state next ttl w) p (store.set_law next ttl w);
      }
