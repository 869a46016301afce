-- ===== src/Oidc/Resource/Keys.antt =====
-- The keys under which consents are recorded do not collide (`consentScopeKey` and
-- `consentAudienceKey` in backend/internal/oidc/api_resource.go).
use pocket_id.Prelude.{
  Bool, true, Option, none, some, [], ◌≡◌, ◌≢◌, ◌⊎◌, inl, inr, refl, sym, ap, ◌∙◌, Bool-cases,
  if◌then◌else◌,
}
use pocket_id.CallbackUrl.Bytes.{Bytes, cut, lacks, cut-append, cut-lacks}
use pocket_id.Oidc.Scopes.{All-has_text}
use pocket_id.Oidc.Resource.{
  is_standard_scope, standard_scopes, separator, consent_scope_key, consent_audience_key,
}

standard_lacks : (s : Bytes) → is_standard_scope s ≡ true → lacks separator s ≡ true
unfolding is_standard_scope
standard_lacks s h =
    All-has_text (λ t. lacks separator t ≡ true) standard_scopes s
      (refl, (refl, (refl, (refl, (refl, tt))))) h

-- what a key tells by its first separator
abbrev read_key : Bytes → Bytes × Option Bytes
read_key key = cut separator key

abbrev reading : Bool → Bytes → Bytes → Bytes × Option Bytes
reading identity audience scope = if identity then (scope, none) else (audience, some scope)

read_key-scope :
    (audience scope : Bytes)
    → lacks separator audience ≡ true
    → read_key (consent_scope_key audience scope) ≡ reading (is_standard_scope scope) audience scope
unfolding consent_scope_key
read_key-scope audience scope clear = elim (Bool-cases (is_standard_scope scope)) [
  | inl on ↦ rw on (cut-lacks separator scope (standard_lacks scope on))
  | inr off ↦ rw off (cut-append separator audience scope clear)
]

-- Two scopes under one key are the same scope, and for the same audience but where it is an identity
-- scope; the audiences lack the separator.
pub consent_scope_key_injective :
    (audience other scope other_scope : Bytes)
    → lacks separator audience ≡ true
    → lacks separator other ≡ true
    → consent_scope_key audience scope ≡ consent_scope_key other other_scope
    → (scope ≡ other_scope) × ((is_standard_scope scope ≡ true) ⊎ (audience ≡ other))
consent_scope_key_injective audience other scope other_scope clear clear' e =
    let both : reading (is_standard_scope scope) audience scope
        ≡ reading (is_standard_scope other_scope) other other_scope =
      sym (read_key-scope audience scope clear)
      ∙ ap read_key e
      ∙ read_key-scope other other_scope clear' in
    elim (Bool-cases (is_standard_scope scope)) [
      | inl on ↦ elim (Bool-cases (is_standard_scope other_scope)) [
        | inl on' ↦ let both' = rw (on, on') at both in (cc, inl on)
        | inr off' ↦ let both' = rw (on, off') at both in cc
      ]
      | inr off ↦ elim (Bool-cases (is_standard_scope other_scope)) [
        | inl on' ↦ let both' = rw (off, on') at both in cc
        | inr off' ↦ let both' = rw (off, off') at both in (cc, inr (cc))
      ]
    ]

-- The key of an audience is the key of no scope but the empty one.
pub consent_audience_key_apart :
    (audience other scope : Bytes)
    → lacks separator audience ≡ true
    → lacks separator other ≡ true
    → scope ≢ []
    → consent_audience_key audience ≢ consent_scope_key other scope
unfolding consent_audience_key
consent_audience_key_apart audience other scope clear clear' full e =
    let both =
      sym (cut-append separator audience [] clear)
      ∙ ap read_key e
      ∙ read_key-scope other scope clear' in
    elim (Bool-cases (is_standard_scope scope)) [
      | inl on ↦ let both' = rw on at both in cc
      | inr off ↦ let both' = rw off at both in full (cc)
    ]
