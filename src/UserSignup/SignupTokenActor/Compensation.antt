-- ===== src/UserSignup/SignupTokenActor/Compensation.antt =====
-- `release` takes back the use that a failed signup consumed (backend/internal/usersignup/actor.go).
use pocket_id.Prelude.{
  ℕ, ◌+◌, ◌-◌, ◌≤◌, ◌<◌, ◌||◌, ◌≡◌, ◌≢◌, ◌⊎◌, inl, inr, refl, sym, ◌∙◌, ap, subst, arith, ◌==◌,
  eq_iff, eqb,
}
use pocket_id.Result.{ok}
use pocket_id.Exec.{pure, wrapping}
use pocket_id.Exec.Triples.{
  Triple, Ends, Triple-pure, Triple-if, Triple-weaken, Triple-wrapping, Triple-bind,
}
use pocket_id.Actor.{Client}
use pocket_id.Actor.Store.{IsStore, At, get-Triple_gone}
use pocket_id.UserSignup.SignupTokenActor.{
  consumed, SignupTokenState, zero_state, ConsumeResponse, get_state, consume, release, release_on,
}
use pocket_id.UserSignup.SignupTokenActor.Uses.{Uses, refuses, uses, Written, set_state-Triple}
use pocket_id.UserSignup.SignupTokenActor.Limits.{consume-Uses}

abbrev released : SignupTokenState → SignupTokenState
released s = record s { usage_count = s.usage_count - 1 }

restored_count :
    (s : SignupTokenState) → released (record s { usage_count = s.usage_count + 1 }) ≡ s
restored_count s = ground arith

module _ {W : Type 0} {client : Client SignupTokenState W} (store : IsStore client zero_state)
    (t : ℕ) (s : SignupTokenState) where
  -- where `release` leaves the actor: an absent or unused token stays
  data Releases : W → Type 0 where
    stays :
        (w : W)
        → (s.id ≡ "") ⊎ (s.usage_count ≡ 0) ⊎ (store.view w ≡ zero_state)
        → At store t s w
        → Releases w
    gives_back : (w : W) → Written store t s (released s) w → Releases w

  release_from :
      (a : SignupTokenState) (w : W)
      → At store t s w
      → (a ≡ s) ⊎ ((a ≡ zero_state) × (store.view w ≡ zero_state))
      → Ends (λ _ v. Releases v) (λ v. Unit {0}) (release_on client a w)
  unfolding release_on
  release_from a w h (inr (e, gone)) = rw e (stays w (inr (inr gone)) h)
  release_from a w h (inl e) =
      subst (λ x. Ends (λ _ v. Releases v) (λ v. Unit {0}) (release_on client x w)) (sym e)
        ((Triple-if (s.id == "" || eqb s.usage_count 0) (pure tt) _
            (λ none_used. Triple-pure tt (λ v k. stays v (ground (arith, eq_iff s.id "")) k))
            (λ _.
              Triple-weaken _ (set_state-Triple store t s (released s)) (λ v k. k)
                (λ _ v k. gives_back v k) (λ v k. tt))).at
          w h)

  release-Triple : Triple (At store t s) (release client) (λ _ w. Releases w) (λ w. Unit {0})
  unfolding release get_state
  release-Triple =
      Triple-bind _ (wrapping _ client.get_state) _
        (Triple-weaken _ (Triple-wrapping _ _ (get-Triple_gone store t s)) (λ w h. h) (λ _ w h. h)
          (λ w h. tt))
        λ a. record { at = λ w h. release_from a w h.0 h.1 }

module _ {W : Type 0} {client : Client SignupTokenState W} (store : IsStore client zero_state) where
  -- the use that was recorded is taken back
  undone :
      (t : ℕ) (s₀ s : SignupTokenState) (u : W)
      → s ≡ record s₀ { usage_count = s₀.usage_count + 1 }
      → s₀.id ≢ ""
      → store.time u < s₀.expires_at
      → Releases store t s u
      → (store.view u ≡ s₀) ⊎ (store.view u ≡ zero_state)
  undone t s₀ s u e stored live (stays _ (inl none) h) =
      absurd (stored (sym (ap (λ (x : SignupTokenState). x.id) e) ∙ none))
  undone t s₀ s u e stored live (stays _ (inr (inl none)) h) =
      let c = ap (λ (x : SignupTokenState). x.usage_count) e in absurd (omega arith)
  undone t s₀ s u e stored live (stays _ (inr (inr gone)) h) = inr gone
  undone t s₀ s u e stored live (gives_back _ (inl (back, _))) =
      inl (back ∙ ap released e ∙ restored_count s₀)
  undone t s₀ s u e stored live (gives_back _ (inr (h, (n, passed, over)))) =
      let d = ap (λ (x : SignupTokenState). x.expires_at) e in absurd (omega arith)

  later_of_release :
      (t : ℕ) (s : SignupTokenState) (u : W) → Releases store t s u → t ≤ store.time u
  later_of_release t s u (stays _ _ h) = h.1
  later_of_release t s u (gives_back _ (inl (_, later))) = later
  later_of_release t s u (gives_back _ (inr (h, _))) = h.1

  released_after :
      (w v u : W) (r : ConsumeResponse)
      → r.status ≡ consumed
      → Uses store (store.time w) (store.view w) r v
      → Releases store (store.time v) (store.view v) u
      → store.time u < (store.view w).expires_at
      → (store.view u ≡ store.view w) ⊎ (store.view u ≡ zero_state)
  released_after w v u r e (refuses _ _ n _) b live = absurd (n e)
  released_after w v u r e (uses _ _ _ stored _ _ _ _ (inl (recorded, _))) b live =
      undone (store.time v) (store.view w) (store.view v) u recorded stored live b
  released_after w v u r e (uses _ _ _ _ _ _ _ _ (inr (_, (m, passed, over)))) b live =
      absurd (omega (arith, later_of_release _ _ u b))

  -- After an admitted `consume`, a `release` that succeeds before the token is over leaves the token
  -- as it was before both, or purged.
  pub release-consume :
      (w v u : W) (r : ConsumeResponse)
      → consume client w ≡ (ok r, v)
      → r.status ≡ consumed
      → release client v ≡ (ok tt, u)
      → store.time u < (store.view w).expires_at
      → (store.view u ≡ store.view w) ⊎ (store.view u ≡ zero_state)
  release-consume w v u r first taken second live =
      released_after w v u r taken (consume-Uses store w v r first)
        (subst (Ends (λ _ x. Releases store (store.time v) (store.view v) x) (λ x. Unit {0})) second
          ((release-Triple store _ _).at v (inl refl, omega arith)))
        live
