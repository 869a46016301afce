-- ===== src/Authz/Middleware/Decisions.antt =====
-- When the middleware lets a request through, and as whom (backend/internal/authz/middleware.go).
use pocket_id.Prelude.{
  Bool, true, false, none, some, List, [], ◌∷◌, ◌≡◌, ◌↔◌, refl, sym, ◌∙◌, arith, ap, subst,
  if◌then◌else◌,
}
use pocket_id.AppError.{email_verification_required, missing_scope}
use pocket_id.Result.{ok, err}
use pocket_id.Authz.Scope.{Scope, has}
use pocket_id.Authz.Principal.{Principal}
use pocket_id.Authz.Middleware.{
  Authenticator, Outcome, Resolved, anonymous, authorized, rejected, authenticate, decide, require,
}
use pocket_id.Authz.Middleware.Resolution.{
  Resolves, found, later, Exhausts, done, skip, skips, resolves, ends, step, authenticate-skip,
  authenticate-found, authenticate-Refuses, flag,
}

module _ {C W : Type 0} (scope : Scope) (c : C) where
  Resolves-sound :
      (auths : List (Authenticator C W)) (k b : Bool) (w w' : W) (p : Principal)
      → authenticate scope c auths k w ≡ (ok (some p, b), w')
      → Resolves scope c p auths w w'
  Resolves-sound [] k b w w' p h = unfold authenticate in ground arith
  Resolves-sound (a ∷ auths) k b w w' p h = elim (step scope c a w) [
    | skips v s ↦ later s (
        Resolves-sound auths (flag scope c a k) b v w' p
          (sym (authenticate-skip scope c a auths k s) ∙ h))
    | resolves q v here allowed e ↦
        found here allowed (cc (e, h, authenticate-found scope c a auths k w v q here allowed e))
    | ends e v r ↦ absurd (cc (h, authenticate-Refuses scope c a auths k e r))
  ]

  Resolves-complete :
      (auths : List (Authenticator C W)) (k : Bool) {w w' : W} {p : Principal}
      → Resolves scope c p auths w w'
      → authenticate scope c auths k w ≡ (ok (some p, false), w')
  Resolves-complete [] k r = elim r [ ]
  Resolves-complete (a ∷ auths) k (found {w = w} {w' = w'} h g e) =
      authenticate-found scope c a auths k w w' _ h g e
  Resolves-complete (a ∷ auths) k (later s r) =
      authenticate-skip scope c a auths k s ∙ Resolves-complete auths (flag scope c a k) r

  Exhausts-sound :
      (auths : List (Authenticator C W)) (k b : Bool) (w w' : W)
      → authenticate scope c auths k w ≡ (ok (none, b), w')
      → Exhausts scope c auths w w'
  Exhausts-sound [] k b w w' h =
      let same : w ≡ w' = unfold authenticate in ap (λ (r : Resolved × W). r.1) h in
      subst (λ x. Exhausts scope c [] w x) same done
  Exhausts-sound (a ∷ auths) k b w w' h = elim (step scope c a w) [
    | skips v s ↦ skip s (
        Exhausts-sound auths (flag scope c a k) b v w'
          (sym (authenticate-skip scope c a auths k s) ∙ h))
    | resolves q v here allowed e ↦
        absurd (cc (h, authenticate-found scope c a auths k w v q here allowed e))
    | ends e v r ↦ absurd (cc (h, authenticate-Refuses scope c a auths k e r))
  ]

  Exhausts-complete :
      (auths : List (Authenticator C W)) (k : Bool) {w w' : W}
      → Exhausts scope c auths w w'
      → (b : Bool) × (authenticate scope c auths k w ≡ (ok (none, b), w'))
  Exhausts-complete [] k done = (k, unfold authenticate in refl)
  Exhausts-complete (a ∷ auths) k (skip s r) =
      let (b, e) = Exhausts-complete auths (flag scope c a k) r in
      (b, authenticate-skip scope c a auths k s ∙ e)

-- reading the decision backwards, one lemma for each outcome that continues
decide-authorized :
    (scope : Scope) (optional : Bool) (r : Resolved) (p : Principal)
    → decide scope optional r ≡ authorized p
    → (b : Bool) × (r ≡ ok (some p, b)) × (has p.scopes scope ≡ true)
unfolding decide
decide-authorized scope optional (err e) p h = cc
decide-authorized scope optional (ok (none, k)) p h = ground arith
decide-authorized scope optional (ok (some q, k)) p h = (k, ground arith, ground arith)

decide-anonymous :
    (scope : Scope) (optional : Bool) (r : Resolved)
    → decide scope optional r ≡ anonymous
    → (b : Bool) × (r ≡ ok (none, b)) × (optional ≡ true)
unfolding decide
decide-anonymous scope optional (err e) h = cc
decide-anonymous scope optional (ok (none, k)) h = (k, refl, ground arith)
decide-anonymous scope optional (ok (some q, k)) h = ground arith

module _ {C W : Type 0} (auths : List (Authenticator C W)) (scope : Scope) (optional : Bool) (c : C)
    (w w' : W) where
  -- A request passes with a principal exactly when that principal is the one that the first
  -- credential not passed over yields, and it holds the scope of the route.
  pub require-authorized_iff :
      (p : Principal)
      → (require auths scope optional c w ≡ (authorized p, w'))
        ↔ (Resolves scope c p auths w w' × (has p.scopes scope ≡ true))
  unfolding require
  require-authorized_iff p = (
    (λ h.
        let (b, e, holds) =
          decide-authorized scope optional (authenticate scope c auths false w).0 p
            (ap (λ (t : Outcome × W). t.0) h) in
        (Resolves-sound scope c auths false b w w' p (cc (e, h)), holds)),
    λ h. rw (Resolves-complete scope c auths false h.0) (unfold decide in ground arith),
  )

  -- A valid credential without the scope is refused, also on an optional route: the request is
  -- never let through as anonymous. The error says whether verifying the email would help.
  pub require-rejected :
      (p : Principal)
      → Resolves scope c p auths w w'
      → has p.scopes scope ≡ false
      → require auths scope optional c w ≡ (
        rejected (
            if has p.withheld_until_verified scope
            then email_verification_required
            else missing_scope scope),
        w',
      )
  unfolding require
  require-rejected p r lacks =
      rw (Resolves-complete scope c auths false r) (unfold decide in ground arith)

  -- A request passes as anonymous exactly when the route is optional and every credential is
  -- passed over: absent, of a kind that cannot hold the scope, or invalid.
  pub require-anonymous_iff :
      (require auths scope optional c w ≡ (anonymous, w'))
      ↔ ((optional ≡ true) × Exhausts scope c auths w w')
  unfolding require
  require-anonymous_iff = (
    (λ h.
        let (b, e, open_route) =
          decide-anonymous scope optional (authenticate scope c auths false w).0
            (ap (λ (t : Outcome × W). t.0) h) in
        (open_route, Exhausts-sound scope c auths false b w w' (cc (e, h)))),
    λ h.
        let (b, e) = Exhausts-complete scope c auths false h.1 in
        rw e (unfold decide in ground arith),
  )
