-- ===== src/Oidc/Consent/Narrowing.antt =====
-- What a user leaves of a request (`narrowApprovedScopes` in
-- backend/internal/oidc/authorization_service.go).
use pocket_id.Prelude.{
  Bool, ◌||◌, ◌&&◌, some, List, [], ◌∷◌, ◌≡◌, refl, arith, Bool-cases, inl, inr,
}
use pocket_id.Result.{ok}
use pocket_id.CallbackUrl.Bytes.{Bytes, eq_bytes, eq_bytes_iff}
use pocket_id.Oidc.Scopes.{has_text}
use pocket_id.Oidc.Consent.{
  required_consent_scopes, keep_approved, narrow_approved_scopes, consent_scopes_include,
}
use pocket_id.Oidc.Consent.Merging.{Includes, include_sound}

-- a list without some of its members, the others in their order
pub data Thinned : List Bytes → List Bytes → Type 0 where
  end : Thinned [] []
  keep : {ts us : List Bytes} (t : Bytes) → Thinned ts us → Thinned (t ∷ ts) (t ∷ us)
  drop : {ts us : List Bytes} (t : Bytes) → Thinned ts us → Thinned ts (t ∷ us)

keep_approved-Thinned : (approved ss : List Bytes) → Thinned (keep_approved approved ss) ss
unfolding keep_approved
keep_approved-Thinned approved [] = end
keep_approved-Thinned approved (s ∷ ss) =
    elim (Bool-cases (has_text approved s || has_text required_consent_scopes s)) [
      | inl on ↦ rw on (keep s (keep_approved-Thinned approved ss))
      | inr off ↦ rw off (drop s (keep_approved-Thinned approved ss))
    ]

wanted : List Bytes → Bytes → Bool
wanted approved t = has_text approved t || has_text required_consent_scopes t

has_text-keep_approved :
    (approved ss : List Bytes) (t : Bytes)
    → has_text (keep_approved approved ss) t ≡ (has_text ss t && wanted approved t)
unfolding keep_approved wanted
has_text-keep_approved approved [] t = refl
has_text-keep_approved approved (s ∷ ss) t = elim (Bool-cases (eq_bytes s t)) [
  | inl same ↦
      let same' : s ≡ t = (eq_bytes_iff s t).0 same in
      ground (arith, has_text-keep_approved approved ss t)
  | inr other ↦ ground (arith, has_text-keep_approved approved ss t)
]

-- a selection of a user
pub data Narrowed (requested approved narrowed : List Bytes) : Type 0 where
  narrowed :
      Includes requested approved
      → Thinned narrowed requested
      → ((t : Bytes)
          → has_text narrowed t
            ≡ (has_text requested t && (has_text approved t || has_text required_consent_scopes t)))
      → Narrowed requested approved narrowed

-- A selection that `narrowApprovedScopes` accepts names requested scopes only, and what remains is
-- the request in its order without the scopes that are neither selected nor `openid`.
pub narrow_approved_scopes-Narrowed :
    (requested approved result : List Bytes)
    → narrow_approved_scopes requested (some approved) ≡ ok result
    → Narrowed requested approved result
unfolding narrow_approved_scopes wanted
narrow_approved_scopes-Narrowed requested approved result e =
    elim (Bool-cases (consent_scopes_include requested approved)) [
      | inr off ↦ let e' = rw off at e in cc
      | inl on ↦
          let e' = rw on at e in
          let same : keep_approved approved requested ≡ result = cc in
          rw (← same) (
            narrowed (include_sound requested approved on)
              (keep_approved-Thinned approved requested)
              (has_text-keep_approved approved requested))
    ]
