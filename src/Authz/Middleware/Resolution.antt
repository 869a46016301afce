-- ===== src/Authz/Middleware/Resolution.antt =====
-- What the loop of `authenticate` finds, as relations on the list of authenticators.
use pocket_id.Prelude.{
  Bool, true, false, some, List, [], ◌∷◌, ◌≡◌, refl, inl, inr, arith, Bool-cases,
}
use pocket_id.AppError.{Error, is_code}
use pocket_id.Result.{Result, ok, err}
use pocket_id.Authz.Scope.{Scope, grantable_to}
use pocket_id.Authz.Principal.{Principal}
use pocket_id.Authz.Middleware.{Authenticator, authenticate, after}

module _ {C W : Type 0} (scope : Scope) (c : C) where
  -- The authenticator is passed over, from one state of the world to the next: its credential is
  -- absent, or of a kind that can never hold the scope, or it is invalid.
  pub data Skips (a : Authenticator C W) : W → W → Type 0 where
    absent : {w : W} → a.present c ≡ false → Skips a w w
    wrong_kind : {w : W} → a.present c ≡ true → grantable_to scope a.kind ≡ false → Skips a w w
    invalid :
        {w w' : W} (e : Error)
        → a.present c ≡ true
        → grantable_to scope a.kind ≡ true
        → a.authenticate c w ≡ (err e, w')
        → is_code e "not_signed_in" ≡ true
        → Skips a w w'

  -- the first authenticator that is not passed over yields the principal
  pub data Resolves (p : Principal) : List (Authenticator C W) → W → W → Type 0 where
    found :
        {a : Authenticator C W} {auths : List (Authenticator C W)} {w w' : W}
        → a.present c ≡ true
        → grantable_to scope a.kind ≡ true
        → a.authenticate c w ≡ (ok p, w')
        → Resolves p (a ∷ auths) w w'
    later :
        {a : Authenticator C W} {auths : List (Authenticator C W)} {w w' w″ : W}
        → Skips a w w'
        → Resolves p auths w' w″
        → Resolves p (a ∷ auths) w w″

  -- all are passed over
  pub data Exhausts : List (Authenticator C W) → W → W → Type 0 where
    done : {w : W} → Exhausts [] w w
    skip :
        {a : Authenticator C W} {auths : List (Authenticator C W)} {w w' w″ : W}
        → Skips a w w'
        → Exhausts auths w' w″
        → Exhausts (a ∷ auths) w w″

  -- the authenticator ends the request with an error of its own
  pub data Refuses (a : Authenticator C W) (e : Error) : W → W → Type 0 where
    refuses :
        {w w' : W}
        → a.present c ≡ true
        → grantable_to scope a.kind ≡ true
        → a.authenticate c w ≡ (err e, w')
        → is_code e "not_signed_in" ≡ false
        → Refuses a e w w'

  pub data Step (a : Authenticator C W) (w : W) : Type 0 where
    skips : (w' : W) → Skips a w w' → Step a w
    resolves :
        (p : Principal) (w' : W)
        → a.present c ≡ true
        → grantable_to scope a.kind ≡ true
        → a.authenticate c w ≡ (ok p, w')
        → Step a w
    ends : (e : Error) (w' : W) → Refuses a e w w' → Step a w

  step_of :
      (a : Authenticator C W) (w w' : W) (r : Result Principal)
      → a.present c ≡ true
      → grantable_to scope a.kind ≡ true
      → a.authenticate c w ≡ (r, w')
      → Step a w
  step_of a w w' (ok p) here allowed e = resolves p w' here allowed e
  step_of a w w' (err x) here allowed e = elim (Bool-cases (is_code x "not_signed_in")) [
    | inl bad ↦ skips w' (invalid x here allowed e bad)
    | inr other ↦ ends x w' (refuses here allowed e other)
  ]

  -- every authenticator does one of three things
  pub step : (a : Authenticator C W) (w : W) → Step a w
  step a w = elim (Bool-cases (a.present c)) [
    | inr missing ↦ skips w (absent missing)
    | inl here ↦ elim (Bool-cases (grantable_to scope a.kind)) [
      | inr other ↦ skips w (wrong_kind here other)
      | inl allowed ↦ step_of a w (a.authenticate c w).1 (a.authenticate c w).0 here allowed refl
    ]
  ]

  -- `kindRejected` after the authenticator is passed over
  abbrev pub flag : Authenticator C W → Bool → Bool
  flag a k = elim (a.present c) [
    | false ↦ k
    | true ↦ elim (grantable_to scope a.kind) [ false ↦ true | true ↦ k ]
  ]

  pub authenticate-skip :
      (a : Authenticator C W) (auths : List (Authenticator C W)) (k : Bool) {w w' : W}
      → Skips a w w'
      → authenticate scope c (a ∷ auths) k w ≡ authenticate scope c auths (flag a k) w'
  unfolding authenticate after
  authenticate-skip a auths k (absent h) = ground arith
  authenticate-skip a auths k (wrong_kind h g) = ground arith
  authenticate-skip a auths k (invalid e h g r n) = ground arith

  pub authenticate-found :
      (a : Authenticator C W) (auths : List (Authenticator C W)) (k : Bool) (w w' : W)
      (p : Principal)
      → a.present c ≡ true
      → grantable_to scope a.kind ≡ true
      → a.authenticate c w ≡ (ok p, w')
      → authenticate scope c (a ∷ auths) k w ≡ (ok (some p, false), w')
  unfolding authenticate after
  authenticate-found a auths k w w' p h g r = rw (h, g, r)

  pub authenticate-Refuses :
      (a : Authenticator C W) (auths : List (Authenticator C W)) (k : Bool) (e : Error) {w w' : W}
      → Refuses a e w w'
      → authenticate scope c (a ∷ auths) k w ≡ (err e, w')
  unfolding authenticate after
  authenticate-Refuses a auths k e (refuses h g r n) = rw (h, g, r, n)
