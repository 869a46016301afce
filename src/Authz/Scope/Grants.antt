-- ===== src/Authz/Scope/Grants.antt =====
-- Which scopes `UserScopes` grants, and to whom (backend/internal/authz/scope.go).
use pocket_id.Prelude.{
  Bool, true, false, not, ◌&&◌, ◌||◌, Option, none, some, List, [], ◌∷◌, ◌≡◌, refl, inl, inr,
  Option-cases, arith, ◌==◌, eq_iff, contains-add, any, all, lookup, if◌then◌else◌, Bool-cases,
}
use pocket_id.Authz.Scope.{
  Scope, ScopeSet, PrincipalKind, kind_api_key, kind_oauth_user, kind_oauth_client, account_session,
  account_authorize, account_passkeys_enroll, account_api_keys_create, Definition, catalog,
  definitions, has, may_hold, is_admin_scope, grantable_to, grant, scopes_from, user_scopes,
}

-- the entry grants what its scope needs
abbrev pub gives : Bool → PrincipalKind → Definition → Bool
gives is_admin kind e = may_hold e kind && (not (is_admin_scope e) || is_admin)

abbrev gives_scope : Bool → PrincipalKind → Scope → Definition → Bool
gives_scope is_admin kind s e = e.scope == s && gives is_admin kind e

has-grant :
    (is_admin : Bool) (kind : PrincipalKind) (set : ScopeSet) (s : Scope) (e : Definition)
    → has (grant is_admin kind set e) s ≡ (gives_scope is_admin kind s e || has set s)
unfolding grant
has-grant is_admin kind set s e = ground (arith, contains-add e.scope s set)

has-scopes_from :
    (is_admin : Bool) (kind : PrincipalKind) (set : ScopeSet) (s : Scope) (es : List Definition)
    → has (scopes_from is_admin kind set es) s ≡ (any (gives_scope is_admin kind s) es || has set s)
unfolding scopes_from
has-scopes_from is_admin kind set s [] = refl
has-scopes_from is_admin kind set s (e ∷ es) = ground (
  arith,
  has-scopes_from is_admin kind (grant is_admin kind set e) s es,
  has-grant is_admin kind set s e,
)

find : Scope → List Definition → Option Definition
find s [] = none
find s (e ∷ es) = if e.scope == s then some e else find s es

abbrev distinct : List Definition → Bool
distinct [] = true
distinct (e ∷ es) = all (λ d. not (d.scope == e.scope)) es && distinct es

abbrev pub gives_or_zero : Bool → PrincipalKind → Option Definition → Bool
gives_or_zero is_admin kind none = false
gives_or_zero is_admin kind (some d) = gives is_admin kind d

any-absent :
    (is_admin : Bool) (kind : PrincipalKind) (s : Scope) (es : List Definition)
    → all (λ d. not (d.scope == s)) es ≡ true
    → any (gives_scope is_admin kind s) es ≡ false
any-absent is_admin kind s [] h = refl
any-absent is_admin kind s (e ∷ es) h = ground (arith, any-absent is_admin kind s es)

any-find :
    (is_admin : Bool) (kind : PrincipalKind) (s : Scope) (es : List Definition)
    → distinct es ≡ true
    → any (gives_scope is_admin kind s) es ≡ gives_or_zero is_admin kind (find s es)
unfolding find
any-find is_admin kind s [] h = refl
any-find is_admin kind s (e ∷ es) h = elim (Bool-cases (e.scope == s)) [
  | inl same ↦
      let p : e.scope ≡ s = (eq_iff e.scope s).0 same in
      let absent : any (gives_scope is_admin kind s) es ≡ false =
        any-absent is_admin kind s es (rw (← p) (ground arith)) in
      ground arith
  | inr other ↦ ground (arith, any-find is_admin kind s es)
]

catalog-distinct : distinct catalog ≡ true
unfolding catalog
catalog-distinct = refl

find-catalog : (s : Scope) → find s catalog ≡ lookup s definitions
unfolding find lookup catalog definitions
find-catalog s = refl

-- A user holds a scope exactly when the catalog lists it, its flags allow the kind of credential,
-- and it is an account scope or the user is an admin.
pub has-user_scopes :
    (is_admin : Bool) (kind : PrincipalKind) (s : Scope)
    → has (user_scopes is_admin kind) s ≡ gives_or_zero is_admin kind (lookup s definitions)
unfolding user_scopes
has-user_scopes is_admin kind s = ground (
  arith,
  has-scopes_from is_admin kind [] s catalog,
  any-find is_admin kind s catalog catalog-distinct,
  find-catalog s,
)

-- The scopes of a user pass the middleware's own test of the credential's kind.
pub grantable_to-user_scopes :
    (is_admin : Bool) (kind : PrincipalKind) (s : Scope)
    → has (user_scopes is_admin kind) s ≡ true
    → grantable_to s kind ≡ true
unfolding grantable_to
grantable_to-user_scopes is_admin kind s h = ground (arith, has-user_scopes is_admin kind s)

-- every entry has a property
find-all :
    (p : Definition → Bool) (s : Scope) (es : List Definition) (d : Definition)
    → all p es ≡ true
    → find s es ≡ some d
    → p d ≡ true
unfolding find
find-all p s [] d h e = cc
find-all p s (x ∷ es) d h e = ground (arith, find-all p s es d)

catalog_excludes : all (λ d. not (may_hold d kind_oauth_client)) catalog ≡ true
unfolding catalog
catalog_excludes = refl

-- No scope can be granted to a client that acts as itself.
pub grantable_to-oauth_client : (s : Scope) → grantable_to s kind_oauth_client ≡ false
unfolding grantable_to
grantable_to-oauth_client s = rw (← find-catalog s) (elim (Option-cases (find s catalog)) [
  | inl missing ↦ rw missing refl
  | inr (d, found) ↦ rw found (
      ground (
        arith,
        find-all (λ d. not (may_hold d kind_oauth_client)) s catalog d catalog_excludes found,
      ))
])

-- the scopes of the enrolling and minting routes
abbrev pub is_session_only : Scope → Bool
is_session_only s =
    s == account_session
    || s == account_authorize
    || s == account_passkeys_enroll
    || s == account_api_keys_create

abbrev session_only_rule : Definition → Bool
session_only_rule d =
    not (is_session_only d.scope) || not (may_hold d kind_api_key || may_hold d kind_oauth_user)

session_only_catalog : all session_only_rule catalog ≡ true
unfolding catalog
session_only_catalog = refl

find-scope : (s : Scope) (es : List Definition) (d : Definition) → find s es ≡ some d → d.scope ≡ s
unfolding find
find-scope s [] d e = cc
find-scope s (x ∷ es) d e = ground (arith, find-scope s es d, eq_iff x.scope s)

-- The four scopes that are for sessions only can be granted neither to an API key nor to an OAuth
-- access token of a user, so no user holds one through such a credential, whatever the role.
pub grantable_to-session_only :
    (s : Scope)
    → is_session_only s ≡ true
    → (grantable_to s kind_api_key ≡ false) × (grantable_to s kind_oauth_user ≡ false)
unfolding grantable_to
grantable_to-session_only s h = rw (← find-catalog s) (elim (Option-cases (find s catalog)) [
  | inl missing ↦ rw missing (refl, refl)
  | inr (d, found) ↦
      let e : d.scope ≡ s = find-scope s catalog d found in
      let rule : session_only_rule d ≡ true =
        find-all session_only_rule s catalog d session_only_catalog found in
      let listed : is_session_only d.scope ≡ true = rw e h in rw found (ground arith)
])
