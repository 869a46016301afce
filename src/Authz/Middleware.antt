-- ===== src/Authz/Middleware.antt =====
-- backend/internal/authz/middleware.go. A request is a value of `C`, and what authenticators read
-- and change (the database, the tokens' use marks) is a value of `W`.
pub mod Resolution
pub mod Decisions
use pocket_id.Prelude.{Bool, true, false, Option, none, some, List, [], ◌∷◌, if◌then◌else◌}
use pocket_id.AppError.{
  Error, is_code, not_signed_in, api_key_auth_not_allowed, email_verification_required,
  missing_scope,
}
use pocket_id.Result.{Result, ok, err}
use pocket_id.Authz.Scope.{Scope, PrincipalKind, has, grantable_to}
use pocket_id.Authz.Principal.{Principal}

pub record Authenticator (C W : Type 0) : Type 0 where
  pub kind : PrincipalKind
  pub present : C → Bool
  pub authenticate : C → W → Result Principal × W

-- what the handler that `require` returns does with the request
pub data Outcome : Type 0 where
  -- `c.Next()` with no principal attached
  anonymous : Outcome
  -- `SetPrincipal(c, principal)` and `c.Next()`
  authorized : Principal → Outcome
  -- `c.Abort()` and `c.Error(err)`
  rejected : Error → Outcome

abbrev pub Resolved : Type 0
Resolved = Result (Option Principal × Bool)

-- an invalid credential falls through to the next authenticator, a rejected one ends the request
unfoldable pub after : {W : Type 0} → (W → Resolved × W) → Result Principal × W → Resolved × W
after next (ok p, w) = (ok (some p, false), w)
after next (err e, w) = if is_code e "not_signed_in" then next w else (err e, w)

module _ {C W : Type 0} where
  -- the loop of `authenticate`; the result pairs the principal, or nil, with `kindRejected`
  unfoldable pub authenticate : Scope → C → List (Authenticator C W) → Bool → W → Resolved × W
  authenticate scope c [] kind_rejected w = (ok (none, kind_rejected), w)
  authenticate scope c (a ∷ auths) kind_rejected w = elim (a.present c) [
    | false ↦ authenticate scope c auths kind_rejected w
    | true ↦ elim (grantable_to scope a.kind) [
      | false ↦ authenticate scope c auths true w
      | true ↦ after (authenticate scope c auths kind_rejected) (a.authenticate c w)
    ]
  ]

-- the body of the handler that `require` returns, after `authenticate`
unfoldable pub decide : Scope → Bool → Resolved → Outcome
decide scope optional (err e) = rejected e
decide scope optional (ok (none, kind_rejected)) =
    if optional
    then anonymous
    else if kind_rejected
    then rejected api_key_auth_not_allowed
    else rejected not_signed_in
decide scope optional (ok (some p, kind_rejected)) =
    if has p.scopes scope
    then authorized p
    else if has p.withheld_until_verified scope
    then rejected email_verification_required
    else rejected (missing_scope scope)

module _ {C W : Type 0} where
  -- `NewMiddleware(authenticators...)` and `require(scope, optional)`, applied to a request
  unfoldable pub require : List (Authenticator C W) → Scope → Bool → C → W → Outcome × W
  require auths scope optional c w =
      let (resolved, w') = authenticate scope c auths false w in
      (decide scope optional resolved, w')
