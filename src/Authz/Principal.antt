-- ===== src/Authz/Principal.antt =====
-- backend/internal/authz/principal.go: the authenticated caller with the scopes it holds.
use pocket_id.Prelude.{
  ℕ, String, true, not, ◌&&◌, ◌||◌, List, [], ◌∷◌, ◌≡◌, refl, ap, arith, ◌==◌, eq_iff, add,
  contains-add, if◌then◌else◌,
}
use pocket_id.Authz.Scope.{Scope, ScopeSet, PrincipalKind, has, unverified_scopes}

pub record Principal : Type 0 where
  pub kind : PrincipalKind
  pub user_id : String
  pub scopes : ScopeSet
  pub withheld_until_verified : ScopeSet
  pub authentication_method : String
  pub authentication_time : ℕ

-- the loop of `RestrictUnverified` over `p.Scopes`
restrict_from : ScopeSet → ScopeSet → List Scope → ScopeSet × ScopeSet
restrict_from kept withheld [] = (kept, withheld)
restrict_from kept withheld (s ∷ ss) =
    let keep = has unverified_scopes s in
    restrict_from (if keep then add s kept else kept) (if keep then withheld else add s withheld) ss

unfoldable pub restrict_unverified : Principal → Principal
unfolding restrict_from
restrict_unverified p =
    let (kept, withheld) = restrict_from [] [] p.scopes in
    record p { scopes = kept; withheld_until_verified = withheld }

has-eq : (set : ScopeSet) (x s : Scope) → x == s ≡ true → has set x ≡ has set s
has-eq set x s h = ap (has set) ((eq_iff x s).0 h)

restrict_from-has :
    (s : Scope) (kept withheld : ScopeSet) (ss : List Scope)
    → (has (restrict_from kept withheld ss).0 s
        ≡ (has ss s && has unverified_scopes s || has kept s))
      × (has (restrict_from kept withheld ss).1 s
          ≡ (has ss s && not (has unverified_scopes s) || has withheld s))
unfolding restrict_from
restrict_from-has s kept withheld [] = (refl, refl)
restrict_from-has s kept withheld (x ∷ ss) =
    let keep = has unverified_scopes x in
    let ih =
      restrict_from-has s (if keep then add x kept else kept)
        (if keep then withheld else add x withheld) ss in
    let same = has-eq unverified_scopes x s in
    (
      ground (arith, ih.0, same, contains-add x s kept),
      ground (arith, ih.1, same, contains-add x s withheld),
    )

-- Restricting splits the scopes of a principal: it keeps those that a user needs to verify the
-- email, and withholds all others; nothing is gained and nothing is lost.
pub has-restrict_unverified :
    (p : Principal) (s : Scope)
    → (has (restrict_unverified p).scopes s ≡ (has p.scopes s && has unverified_scopes s))
      × (has (restrict_unverified p).withheld_until_verified s
          ≡ (has p.scopes s && not (has unverified_scopes s)))
unfolding restrict_unverified
has-restrict_unverified p s =
    let h = restrict_from-has s [] [] p.scopes in (ground (arith, h.0), ground (arith, h.1))
