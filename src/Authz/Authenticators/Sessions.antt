-- ===== src/Authz/Authenticators/Sessions.antt =====
-- What the two credentials of `NewAuthorization` establish about the user of an authorized request.
use pocket_id.Prelude.{
  String, Bool, true, false, Option, none, some, ◌≡◌, ◌≢◌, ◌⊎◌, inl, inr, refl, ap, ◌∙◌, arith,
  eq_iff, Bool-cases,
}
use pocket_id.Result.{Result, ok, err}
use pocket_id.Authz.Scope.{Scope, has, user_scopes, unverified_scopes}
use pocket_id.Authz.Scope.Grants.{is_session_only, grantable_to-session_only}
use pocket_id.Authz.Principal.{Principal, restrict_unverified, has-restrict_unverified}
use pocket_id.Authz.Middleware.{authorized, require}
use pocket_id.Authz.Middleware.Resolution.{Resolves, found, later}
use pocket_id.Authz.Middleware.Decisions.{require-authorized_iff}
use pocket_id.Authz.Authenticators.{
  User, Token, Request, Backend, can_be_pending, is_pending, session_token, restrict_with,
  with_restriction, admit, session_principal, api_key_principal, authenticate_token,
  session_authenticator, api_key_authenticator, authorization,
}

module _ {W : Type 0} (backend : Backend W) where
  -- the user need not verify the email, as far as the configuration read at `w` says
  abbrev pub Unrestricted : W → User → Type 0
  Unrestricted w u =
      (can_be_pending u ≡ false)
      ⊎ ((setting : String) × ((backend.get_config w).0 ≡ ok setting)
          × (is_pending setting u ≡ false))

  -- the principal of an enabled user, restricted unless the user need not verify the email
  pub record Admits (principal : User → Principal) (w : W) (u : User) (p : Principal) : Type 0 where
    pub enabled : u.disabled ≡ false
    pub made : ((p ≡ principal u) × Unrestricted w u) ⊎ (p ≡ restrict_unverified (principal u))

  restrict_with_sound :
      (principal : User → Principal) (u : User) (w : W) (r : Result String × W) (w' : W)
      (p : Principal)
      → backend.get_config w ≡ r
      → restrict_with backend r u (principal u) ≡ (ok p, w')
      → ((p ≡ principal u) × Unrestricted w u) ⊎ (p ≡ restrict_unverified (principal u))
  unfolding restrict_with
  restrict_with_sound principal u w (err e, v) w' p g h = cc
  restrict_with_sound principal u w (ok setting, v) w' p g h =
      elim (Bool-cases (is_pending setting u)) [
        | inl pending ↦ inr (ground arith)
        | inr clear ↦
            inl (ground arith, inr (setting, ap (λ (t : Result String × W). t.0) g, clear))
      ]

  made_of :
      (principal : User → Principal) (u : User) (w w' : W) (p : Principal)
      → with_restriction backend u (principal u) w ≡ (ok p, w')
      → ((p ≡ principal u) × Unrestricted w u) ⊎ (p ≡ restrict_unverified (principal u))
  unfolding with_restriction
  made_of principal u w w' p h = elim (Bool-cases (can_be_pending u)) [
    | inl may ↦ restrict_with_sound principal u w (backend.get_config w) w' p refl (rw may at h)
    | inr clear ↦ inl (ground arith, inl clear)
  ]

  admit_sound :
      (principal : User → Principal) (r : Result User) (w w' : W) (p : Principal)
      → admit backend principal (r, w) ≡ (ok p, w')
      → (u : User) × (r ≡ ok u) × Admits principal w u p
  unfolding admit
  admit_sound principal (err e) w w' p h = cc
  admit_sound principal (ok u) w w' p h = elim (Bool-cases u.disabled) [
    | inl off ↦ ground arith
    | inr on ↦
        let e : with_restriction backend u (principal u) w ≡ (ok p, w') = ground arith in
        (u, refl, record { enabled = on; made = made_of principal u w w' p e })
  ]

  -- Where the user of an authorized request comes from: the subject of the verified session token,
  -- or the owner of the API key.
  pub data Loaded (c : Request) (u : User) (p : Principal) : Type 0 where
    session :
        (token : Token) (method subject : String) (v w' : W)
        → backend.verify_access_token (session_token c) v ≡ ok token
        → token.authentication_method ≡ ok method
        → token.subject ≡ some subject
        → backend.get_user subject v ≡ (ok u, w')
        → Admits (session_principal backend method token.issued_at) w' u p
        → Loaded c u p
    api_key :
        (v w' : W)
        → backend.validate_api_key c.api_key_header v ≡ (ok u, w')
        → Admits (api_key_principal backend) w' u p
        → Loaded c u p

  session-Loaded :
      (c : Request) (w w' : W) (token : Token) (p : Principal) (m : Result String)
      (subject : Option String)
      → backend.verify_access_token (session_token c) w ≡ ok token
      → token.authentication_method ≡ m
      → token.subject ≡ subject
      → authenticate_token backend (ok token) w ≡ (ok p, w')
      → (u : User) × Loaded c u p
  unfolding authenticate_token
  session-Loaded c w w' token p (err e) s g gm gs h = ground arith
  session-Loaded c w w' token p (ok method) none g gm gs h = ground arith
  session-Loaded c w w' token p (ok method) (some subject) g gm gs h =
      let principal = session_principal backend method token.issued_at in
      let e : admit backend principal (backend.get_user subject w) ≡ (ok p, w') = ground arith in
      let answer = backend.get_user subject w in
      let (u, loaded, admits) = admit_sound principal answer.0 answer.1 w' p e in
      (u, session token method subject w answer.1 g gm gs (λ i. (loaded i, answer.1)) admits)

  session-Loaded_from :
      (c : Request) (w w' : W) (r : Result Token) (p : Principal)
      → backend.verify_access_token (session_token c) w ≡ r
      → authenticate_token backend r w ≡ (ok p, w')
      → (u : User) × Loaded c u p
  session-Loaded_from c w w' (err e) p g h = unfold authenticate_token in cc
  session-Loaded_from c w w' (ok token) p g h =
      session-Loaded c w w' token p token.authentication_method token.subject g refl refl h

  Resolves-Loaded :
      (scope : Scope) (c : Request) (w w' : W) (p : Principal)
      → Resolves scope c p (authorization backend) w w'
      → (u : User) × Loaded c u p
  unfolding session_authenticator api_key_authenticator
  Resolves-Loaded scope c w w' p (found _ _ e) = session-Loaded_from c w w' _ p refl e
  Resolves-Loaded scope c w w' p (later s (found {w = v} _ _ e)) =
      let answer = backend.validate_api_key c.api_key_header v in
      let (u, loaded, admits) = admit_sound (api_key_principal backend) answer.0 answer.1 w' p e in
      (u, api_key v answer.1 (λ i. (loaded i, answer.1)) admits)
  Resolves-Loaded scope c w w' p (later s (later t r)) = elim r [ ]

  -- the principal has scopes of its user only, and none but the unverified ones when restricted
  Admits-scopes :
      (principal : User → Principal) (w : W) (u : User) (p : Principal) (s : Scope)
      → Admits principal w u p
      → has p.scopes s ≡ true
      → (has (principal u).scopes s ≡ true)
        × (Unrestricted w u ⊎ (has unverified_scopes s ≡ true))
        × (p.user_id ≡ (principal u).user_id)
        × (p.kind ≡ (principal u).kind)
  Admits-scopes principal w u p s a holds = elim a.made [
    | inl (same, free) ↦ (
      rw (← same) holds,
      inl free,
      ap (λ (q : Principal). q.user_id) same,
      ap (λ (q : Principal). q.kind) same,
    )
    | inr same ↦
        let kept : has (restrict_unverified (principal u)).scopes s ≡ true = rw (← same) holds in
        let split = (has-restrict_unverified (principal u) s).0 in
        (
          ground (arith, split),
          inr (ground (arith, split)),
          rw same (unfold restrict_unverified in refl),
          rw same (unfold restrict_unverified in refl),
        )
  ]

  -- what an authorized request establishes of its user
  pub record Entitles (u : User) (p : Principal) (s : Scope) : Type 0 where
    pub enabled : u.disabled ≡ false
    pub owner : p.user_id ≡ u.id
    pub granted : has (user_scopes u.is_admin p.kind) s ≡ true
    pub verified : ((v : W) × Unrestricted v u) ⊎ (has unverified_scopes s ≡ true)

  Admits-Entitles :
      (principal : User → Principal) (w : W) (u : User) (p : Principal) (s : Scope)
      → (principal u).user_id ≡ u.id
      → (principal u).scopes ≡ user_scopes u.is_admin (principal u).kind
      → Admits principal w u p
      → has p.scopes s ≡ true
      → Entitles u p s
  Admits-Entitles principal w u p s own role a holds =
      let (held, free, same_id, same_kind) = Admits-scopes principal w u p s a holds in
      record {
        enabled = a.enabled;
        owner = same_id ∙ own;
        granted = rw (same_kind, ← role) held;
        verified = elim free [ inl clear ↦ inl (w, clear) | inr few ↦ inr few ];
      }

  Loaded-Entitles :
      (c : Request) (u : User) (p : Principal) (s : Scope)
      → Loaded c u p
      → has p.scopes s ≡ true
      → Entitles u p s
  Loaded-Entitles c u p s (session token method subject v w' _ _ _ _ a) holds =
      Admits-Entitles (session_principal backend method token.issued_at) w' u p s refl refl a holds
  Loaded-Entitles c u p s (api_key v w' _ a) holds =
      Admits-Entitles (api_key_principal backend) w' u p s refl refl a holds

  -- Every authorized request carries the principal of a user whom the session token or the API key
  -- names. The user is not disabled, the role and the kind of credential grant the scope of the
  -- route, and a user who still has to verify the email holds one of the unverified scopes only.
  pub require-Entitles :
      (scope : Scope) (optional : Bool) (c : Request) (w w' : W) (p : Principal)
      → require (authorization backend) scope optional c w ≡ (authorized p, w')
      → (u : User) × Loaded c u p × Entitles u p scope
  require-Entitles scope optional c w w' p h =
      let (r, holds) =
        (require-authorized_iff (authorization backend) scope optional c w w' p).0 h in
      let (u, loaded) = Resolves-Loaded scope c w w' p r in
      (u, loaded, Loaded-Entitles c u p scope loaded holds)

  Resolves-session_only :
      (scope : Scope) (c : Request) (w w' : W) (p : Principal)
      → is_session_only scope ≡ true
      → Resolves scope c p (authorization backend) w w'
      → session_token c ≢ ""
  unfolding session_authenticator api_key_authenticator
  Resolves-session_only scope c w w' p only (found here _ e) =
      λ empty. ground (arith, eq_iff (session_token c) "")
  Resolves-session_only scope c w w' p only (later s (found _ allowed e)) =
      λ _. ground (arith, (grantable_to-session_only scope only).0)
  Resolves-session_only scope c w w' p only (later s (later t r)) = elim r [ ]

  -- No request without a session token gets through a route whose scope is for sessions only,
  -- whatever API key it carries.
  pub session_only_needs_token :
      (scope : Scope) (optional : Bool) (c : Request) (w w' : W) (p : Principal)
      → is_session_only scope ≡ true
      → require (authorization backend) scope optional c w ≡ (authorized p, w')
      → session_token c ≢ ""
  session_only_needs_token scope optional c w w' p only h =
      Resolves-session_only scope c w w' p only
        ((require-authorized_iff (authorization backend) scope optional c w w' p).0 h).0
