-- ===== src/Api/Keys.antt =====
-- Permission keys never pass for identity scopes (`UpdatePermissions` in
-- backend/internal/api/service.go).
use pocket_id.Prelude.{
  Bool, true, false, List, [], ◌∷◌, ◌≡◌, refl, sym, arith, All, Bool-cases, inl, inr,
}
use pocket_id.Result.{ok}
use pocket_id.CallbackUrl.Bytes.{Bytes, eq_bytes, eq_bytes_iff}
use pocket_id.Outbound.Text.{to_lower}
use pocket_id.Oidc.Scopes.{has_text, All-has_text}
use pocket_id.Oidc.Resource.{is_standard_scope, standard_scopes}
use pocket_id.Oidc.Consent.Merging.{Distinct}
use pocket_id.Api.{is_permission_key_reserved, check_keys}

not_standard :
    (key : Bytes) → is_permission_key_reserved key ≡ false → is_standard_scope key ≡ false
unfolding is_permission_key_reserved is_standard_scope to_lower
not_standard key h = elim (Bool-cases (is_standard_scope key)) [
  | inr off ↦ off
  | inl on ↦
      let reserved =
        All-has_text (λ t. is_permission_key_reserved t ≡ true) standard_scopes key
          (refl, (refl, (refl, (refl, (refl, tt))))) on in
      cc
]

absent :
    (key : Bytes) (seen keys : List Bytes)
    → All (λ k. has_text (key ∷ seen) k ≡ false) keys
    → has_text keys key ≡ false
absent key seen [] h = refl
absent key seen (k ∷ ks) (out, h) = elim (Bool-cases (eq_bytes k key)) [
  | inl same ↦
      let is : key ≡ k = sym ((eq_bytes_iff k key).0 same) in
      let same' = (eq_bytes_iff key k).1 is in ground arith
  | inr other ↦ rw other (absent key seen ks h)
]

All-tail :
    (key : Bytes) (seen keys : List Bytes)
    → All (λ k. has_text (key ∷ seen) k ≡ false) keys
    → All (λ k. has_text seen k ≡ false) keys
All-tail key seen [] h = tt
All-tail key seen (k ∷ ks) (out, h) = (ground arith, All-tail key seen ks h)

module _ (is_valid : Bytes → Bool) where
  check_keys-apart :
      (seen keys : List Bytes)
      → check_keys is_valid seen keys ≡ ok tt
      → All (λ k. (is_valid k ≡ true) × (is_standard_scope k ≡ false)) keys
        × All (λ k. has_text seen k ≡ false) keys
        × Distinct keys
  unfolding check_keys
  check_keys-apart seen [] h = (tt, tt, tt)
  check_keys-apart seen (key ∷ keys) h = elim (Bool-cases (is_valid key)) [
    | inr bad ↦ let h' = rw bad at h in cc
    | inl good ↦ elim (Bool-cases (is_permission_key_reserved key)) [
      | inl taken ↦ let h' = rw (good, taken) at h in cc
      | inr free ↦ elim (Bool-cases (has_text seen key)) [
        | inl twice ↦ let h' = rw (good, free, twice) at h in cc
        | inr once ↦
            let (own, out, distinct) =
              check_keys-apart (key ∷ seen) keys (rw (good, free, once) at h) in
            (
              ((good, not_standard key free), own),
              (once, All-tail key seen keys out),
              (absent key seen keys out, distinct),
            )
      ]
    ]
  ]

  -- The keys that `UpdatePermissions` accepts are valid scope tokens, none of them is an identity scope,
  -- and none stands twice.
  pub check_keys-Distinct :
      (keys : List Bytes)
      → check_keys is_valid [] keys ≡ ok tt
      → All (λ k. (is_valid k ≡ true) × (is_standard_scope k ≡ false)) keys × Distinct keys
  check_keys-Distinct keys h =
      let (own, out, distinct) = check_keys-apart [] keys h in (own, distinct)
