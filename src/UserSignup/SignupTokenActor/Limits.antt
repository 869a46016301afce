-- ===== src/UserSignup/SignupTokenActor/Limits.antt =====
-- Over any sequence of calls, a signup token admits at most as many users as its limit leaves
-- (backend/internal/usersignup/actor.go).
use pocket_id.Prelude.{ℕ, zero, suc, ◌+◌, ◌≤◌, ◌<◌, ◌≡◌, ◌≢◌, inl, inr, refl, ◌∙◌, ap, subst, arith}
use pocket_id.Result.{Result, ok, err}
use pocket_id.Exec.Triples.{Ends}
use pocket_id.Actor.{Client}
use pocket_id.Actor.Store.{IsStore, At, Near, Kept}
use pocket_id.UserSignup.SignupTokenActor.{
  consumed, SignupTokenState, zero_state, ConsumeResponse, consume,
}
use pocket_id.UserSignup.SignupTokenActor.Uses.{Uses, refuses, uses, used, Fails, consume-Triple}

module _ {W : Type 0} {client : Client SignupTokenState W} (store : IsStore client zero_state) where
  abbrev count_of : W → ℕ
  count_of w = (store.view w).usage_count

  abbrev limit_of : W → ℕ
  limit_of w = (store.view w).usage_limit

  abbrev end_of : W → ℕ
  end_of w = (store.view w).expires_at

  consume_at :
      (w v : W) (r : Result ConsumeResponse)
      → consume client w ≡ (r, v)
      → Ends
          (Uses store (store.time w) (store.view w))
          (Fails store (store.time w) (store.view w))
          (r, v)
  consume_at w v r e =
      subst
        (Ends (Uses store (store.time w) (store.view w))
          (Fails store (store.time w) (store.view w)))
        e ((consume-Triple store _ _).at w (inl refl, omega arith))

  -- What an admitted `consume` proves: the token was stored, below its limit and not over, and one
  -- more use is recorded, unless the token was over when the use was to be written.
  pub consume-Uses :
      (w v : W) (r : ConsumeResponse)
      → consume client w ≡ (ok r, v)
      → Uses store (store.time w) (store.view w) r v
  consume-Uses w v r e = consume_at w v (ok r) e

  -- a sequence of calls of `consume`, of which `k` are admitted
  pub data Consumes : ℕ → W → W → Type 0 where
    done : {w : W} → Consumes zero w w
    admitted :
        {k : ℕ} {w v w' : W} (r : ConsumeResponse)
        → consume client w ≡ (ok r, v)
        → r.status ≡ consumed
        → Consumes k v w'
        → Consumes (suc k) w w'
    refused :
        {k : ℕ} {w v w' : W} (r : ConsumeResponse)
        → consume client w ≡ (ok r, v)
        → r.status ≢ consumed
        → Consumes k v w'
        → Consumes k w w'
    failed :
        {k : ℕ} {w w' : W}
        → Ends (λ _ _. ⊥) (λ _. Unit {0}) (consume client w)
        → Consumes k (consume client w).1 w'
        → Consumes k w w'
    idle :
        {k : ℕ} {w v w' : W}
        → Kept zero_state store.view store.time w v
        → Consumes k v w'
        → Consumes k w w'

  -- what one call may have left, with no claim on its answer
  data Left (w v : W) : Type 0 where
    kept : At store (store.time w) (store.view w) v → Left w v
    counted :
        store.view v ≡ used store (store.time w) (store.view w)
        → count_of w < limit_of w
        → store.time w ≤ store.time v
        → Left w v
    skipped :
        (n : ℕ)
        → n ≤ store.time v
        → end_of w ≤ n
        → At store (store.time w) (store.view w) v
        → Left w v

  Left-of_Uses :
      (w v : W) (r : ConsumeResponse) → Uses store (store.time w) (store.view w) r v → Left w v
  Left-of_Uses w v r (refuses _ _ _ h) = kept h
  Left-of_Uses w v r (uses n _ _ _ below later _ _ (inl (e, late))) = counted e below (omega arith)
  Left-of_Uses w v r (uses n _ _ _ below later _ _ (inr (h, (m, passed, over)))) =
      skipped m passed over (h.0, omega arith)

  Left-of_failure : (w v : W) → Fails store (store.time w) (store.view w) v → Left w v
  Left-of_failure w v (inl h) = kept h
  Left-of_failure w v (inr (e, below, later)) = counted e below later

  later_of_Left : (w v : W) → Left w v → store.time w ≤ store.time v
  later_of_Left w v (kept h) = h.1
  later_of_Left w v (counted _ _ h) = h
  later_of_Left w v (skipped _ _ _ h) = h.1

  Left-of_failed :
      (w : W) (x : Result ConsumeResponse × W)
      → Ends (λ _ _. ⊥) (λ _. Unit {0}) x
      → Ends
          (Uses store (store.time w) (store.view w))
          (Fails store (store.time w) (store.view w))
          x
      → Left w x.1
  Left-of_failed w (ok r, v) f h = absurd f
  Left-of_failed w (err e, v) f h = Left-of_failure w v h

  failed-Left :
      (w : W) → Ends (λ _ _. ⊥) (λ _. Unit {0}) (consume client w) → Left w (consume client w).1
  failed-Left w f = Left-of_failed w (consume client w) f (consume_at w _ _ refl)

  time_le : {k : ℕ} {w w' : W} → Consumes k w w' → store.time w ≤ store.time w'
  time_le done = omega arith
  time_le (admitted {w = w} {v = v} r e _ c) =
      omega (arith, time_le c, later_of_Left w v (Left-of_Uses w v r (consume-Uses w v r e)))
  time_le (refused {w = w} {v = v} r e _ c) =
      omega (arith, time_le c, later_of_Left w v (Left-of_Uses w v r (consume-Uses w v r e)))
  time_le (failed {w = w} f c) = omega (arith, time_le c, later_of_Left w _ (failed-Left w f))
  time_le (idle h c) = omega (arith, time_le c)

  zero_of_Left : (w v : W) → store.view w ≡ zero_state → Left w v → store.view v ≡ zero_state
  zero_of_Left w v e (kept (inl p, _)) = p ∙ e
  zero_of_Left w v e (kept (inr p, _)) = p
  zero_of_Left w v e (counted _ below _) =
      let a = ap (λ (x : SignupTokenState). x.usage_limit) e in absurd (omega arith)
  zero_of_Left w v e (skipped _ _ _ (inl p, _)) = p ∙ e
  zero_of_Left w v e (skipped _ _ _ (inr p, _)) = p

  no-Uses_of_zero :
      {w : W} (v : W) (r : ConsumeResponse)
      → store.view w ≡ zero_state
      → Uses store (store.time w) (store.view w) r v
      → r.status ≢ consumed
  no-Uses_of_zero v r e (refuses _ _ n _) = n
  no-Uses_of_zero v r e (uses _ _ _ stored _ _ _ _ _) =
      absurd (stored (ap (λ (x : SignupTokenState). x.id) e))

  none_of_zero : {k : ℕ} {w w' : W} → Consumes k w w' → store.view w ≡ zero_state → k ≡ 0
  none_of_zero done e = refl
  none_of_zero (admitted {w = w} {v = v} r p ok_status c) e =
      absurd (no-Uses_of_zero v r e (consume-Uses w v r p) ok_status)
  none_of_zero (refused {w = w} {v = v} r p _ c) e =
      none_of_zero c (zero_of_Left w v e (Left-of_Uses w v r (consume-Uses w v r p)))
  none_of_zero (failed {w = w} f c) e = none_of_zero c (zero_of_Left w _ e (failed-Left w f))
  none_of_zero (idle h c) e = none_of_zero c (ground arith)

  -- the claim for one state, given the claim for the state after one call
  module _ {k : ℕ} {w v w' : W} (c : Consumes k v w') (fits : count_of w ≤ limit_of w)
      (live : store.time w' < end_of w)
      (ih : count_of v ≤ limit_of v → store.time w' < end_of v → count_of v + k ≤ limit_of v) where
    keep_bound : Near store (store.view w) v → count_of w + k ≤ limit_of w
    keep_bound (inl e) =
        let a = ap (λ (x : SignupTokenState). x.usage_count) e in
        let b = ap (λ (x : SignupTokenState). x.usage_limit) e in
        let d = ap (λ (x : SignupTokenState). x.expires_at) e in
        let i = ih (omega arith) (omega arith) in omega arith
    keep_bound (inr e) = omega (arith, none_of_zero c e)

    count_bound :
        store.view v ≡ used store (store.time w) (store.view w)
        → count_of w < limit_of w
        → count_of w + 1 + k ≤ limit_of w
    count_bound e below =
        let a = ap (λ (x : SignupTokenState). x.usage_count) e in
        let b = ap (λ (x : SignupTokenState). x.usage_limit) e in
        let d = ap (λ (x : SignupTokenState). x.expires_at) e in
        let i = ih (omega arith) (omega arith) in omega arith

    bound_of_Left : Left w v → count_of w + k ≤ limit_of w
    bound_of_Left (kept h) = keep_bound h.0
    bound_of_Left (counted e below _) = omega (arith, count_bound e below)
    bound_of_Left (skipped n _ _ h) = keep_bound h.0

    bound_of_Uses :
        (r : ConsumeResponse)
        → r.status ≡ consumed
        → Uses store (store.time w) (store.view w) r v
        → count_of w + suc k ≤ limit_of w
    bound_of_Uses r e (refuses _ _ n _) = absurd (n e)
    bound_of_Uses r e (uses _ _ _ _ below _ _ _ (inl (p, _))) = omega (arith, count_bound p below)
    bound_of_Uses r e (uses _ _ _ _ _ _ _ _ (inr (_, (m, passed, over)))) =
        absurd (omega (arith, time_le c))

  -- For a token with no more uses than its limit, and a sequence of calls of `consume` alone that ends
  -- before the token is over: at most as many are admitted as the limit left uses, whatever calls
  -- fail and whenever the host purges the token.
  pub admitted-le-limit :
      {k : ℕ} {w w' : W}
      → Consumes k w w'
      → (store.view w).usage_count ≤ (store.view w).usage_limit
      → store.time w' < (store.view w).expires_at
      → (store.view w).usage_count + k ≤ (store.view w).usage_limit
  admitted-le-limit done fits live = omega arith
  admitted-le-limit (admitted {w = w} {v = v} r e ok_status c) fits live =
      bound_of_Uses c fits live (admitted-le-limit c) r ok_status (consume-Uses w v r e)
  admitted-le-limit (refused {w = w} {v = v} r e _ c) fits live =
      bound_of_Left c fits live (admitted-le-limit c) (Left-of_Uses w v r (consume-Uses w v r e))
  admitted-le-limit (failed {w = w} f c) fits live =
      bound_of_Left c fits live (admitted-le-limit c) (failed-Left w f)
  admitted-le-limit (idle h c) fits live =
      bound_of_Left c fits live (admitted-le-limit c) (kept (h.0, h.1))
