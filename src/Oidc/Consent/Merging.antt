-- ===== src/Oidc/Consent/Merging.antt =====
-- Sets of scopes as lists: `consentScopesInclude` and `mergeConsentScopes` in
-- backend/internal/oidc/authorization_service.go.
use pocket_id.Prelude.{
  true, false, ◌||◌, List, [], ◌∷◌, ◌++◌, ◌≡◌, refl, sym, ap, ◌∙◌, subst, arith, Bool-cases, inl,
  inr,
}
use pocket_id.CallbackUrl.Bytes.{Bytes, eq_bytes, eq_bytes_iff}
use pocket_id.Oidc.Scopes.{has_text, eq_bytes_refl, has_text-append}
use pocket_id.Oidc.Consent.{consent_scopes_include, add_unseen, merge_consent_scopes}

-- every text that the second list has, the first has too
abbrev pub Includes : List Bytes → List Bytes → Type 0
Includes texts others = (t : Bytes) → has_text others t ≡ true → has_text texts t ≡ true

-- no text stands twice
abbrev pub Distinct : List Bytes → Type 0
Distinct [] = Unit
Distinct (t ∷ ts) = (has_text ts t ≡ false) × Distinct ts

Includes-tail :
    (texts : List Bytes) (s : Bytes) (ss : List Bytes) → Includes texts (s ∷ ss) → Includes texts ss
Includes-tail texts s ss h t k = h t (rw k (ground arith))

pub include_sound :
    (texts others : List Bytes) → consent_scopes_include texts others ≡ true → Includes texts others
unfolding consent_scopes_include
include_sound texts [] h t k = cc
include_sound texts (s ∷ ss) h t k = elim (Bool-cases (eq_bytes s t)) [
  | inl same ↦
      let same' : s ≡ t = (eq_bytes_iff s t).0 same in
      subst (λ u. has_text texts u ≡ true) same' (ground arith)
  | inr other ↦ include_sound texts ss (ground arith) t (ground arith)
]

pub include_complete :
    (texts others : List Bytes) → Includes texts others → consent_scopes_include texts others ≡ true
unfolding consent_scopes_include
include_complete texts [] h = refl
include_complete texts (s ∷ ss) h =
    let here = h s (rw (eq_bytes_refl s) refl) in
    rw here (include_complete texts ss (Includes-tail texts s ss h))

-- the two lists of the loops have the same texts
Same : List Bytes → List Bytes → Type 0
Same merged seen = (t : Bytes) → has_text merged t ≡ has_text seen t

has_text-snoc :
    (merged : List Bytes) (s t : Bytes)
    → has_text (merged ++ (s ∷ [])) t ≡ (has_text merged t || eq_bytes s t)
has_text-snoc merged s t = ground (arith, has_text-append merged (s ∷ []) t)

Distinct-snoc :
    (texts : List Bytes) (s : Bytes)
    → Distinct texts
    → has_text texts s ≡ false
    → Distinct (texts ++ (s ∷ []))
Distinct-snoc [] s d h = (refl, tt)
Distinct-snoc (t ∷ ts) s (d, ds) h = (apart, Distinct-snoc ts s ds (ground arith))
  where
    apart : has_text (ts ++ (s ∷ [])) t ≡ false
    apart = elim (Bool-cases (eq_bytes s t)) [
      | inl same ↦
          let same' : t ≡ s = sym ((eq_bytes_iff s t).0 same) in
          let r = (eq_bytes_iff t s).1 same' in
          cc (let x : (eq_bytes t s || has_text ts s) ≡ false = h in x)
      | inr other ↦ has_text-snoc ts s t ∙ rw (d, other) refl
    ]

-- what one step of a loop keeps, and what it adds
data Grown (merged seen ss : List Bytes) (result : List Bytes × List Bytes) : Type 0 where
  grown :
      ((t : Bytes) → has_text result.0 t ≡ (has_text merged t || has_text ss t))
      → Same result.0 result.1
      → Distinct result.0
      → Grown merged seen ss result

head_of :
    (merged : List Bytes) (s : Bytes) (ss : List Bytes) (t : Bytes)
    → ((has_text merged t || eq_bytes s t) || has_text ss t)
      ≡ (has_text merged t || (eq_bytes s t || has_text ss t))
head_of merged s ss t = ground arith

absorbed :
    (merged : List Bytes) (s : Bytes) (ss : List Bytes) (t : Bytes)
    → has_text merged s ≡ true
    → (has_text merged t || has_text ss t) ≡ (has_text merged t || (eq_bytes s t || has_text ss t))
absorbed merged s ss t h = elim (Bool-cases (eq_bytes s t)) [
  | inl same ↦
      let same' : s ≡ t = (eq_bytes_iff s t).0 same in
      let known : has_text merged t ≡ true = subst (λ u. has_text merged u ≡ true) same' h in
      rw known refl
  | inr other ↦ rw other refl
]

add_unseen-Grown :
    (merged seen ss : List Bytes)
    → Same merged seen
    → Distinct merged
    → Grown merged seen ss (add_unseen merged seen ss)
unfolding add_unseen Same
add_unseen-Grown merged seen [] same d = grown (λ t. ground arith) same d
add_unseen-Grown merged seen (s ∷ ss) same d = elim (Bool-cases (has_text seen s)) [
  | inl known ↦ rw known (skipped (same s ∙ known) (add_unseen-Grown merged seen ss same d))
  | inr unknown ↦
      let fresh : has_text merged s ≡ false = same s ∙ unknown in
      rw unknown (
        kept (
          add_unseen-Grown (merged ++ (s ∷ [])) (s ∷ seen) ss both
            (Distinct-snoc merged s d fresh)))
]
  where
    both : (t : Bytes) → has_text (merged ++ (s ∷ [])) t ≡ (eq_bytes s t || has_text seen t)
    both t = ground (arith, has_text-snoc merged s t, same t)

    skipped :
        has_text merged s ≡ true
        → Grown merged seen ss (add_unseen merged seen ss)
        → Grown merged seen (s ∷ ss) (add_unseen merged seen ss)
    skipped h (grown has like apart) = grown (λ t. has t ∙ absorbed merged s ss t h) like apart

    kept :
        Grown (merged ++ (s ∷ [])) (s ∷ seen) ss (add_unseen (merged ++ (s ∷ [])) (s ∷ seen) ss)
        → Grown merged seen (s ∷ ss) (add_unseen (merged ++ (s ∷ [])) (s ∷ seen) ss)
    kept (grown has like apart) =
        grown
          (λ t.
            has t ∙ ap (λ b. b || has_text ss t) (has_text-snoc merged s t) ∙ head_of merged s ss t)
          like apart

-- `mergeConsentScopes` refines the union of sets: the merged list has exactly the texts that one of
-- the two lists has, and none of them twice.
pub merge_consent_scopes-Union :
    (authorized requested : List Bytes)
    → ((t : Bytes)
        → has_text (merge_consent_scopes authorized requested) t
          ≡ (has_text authorized t || has_text requested t))
      × Distinct (merge_consent_scopes authorized requested)
unfolding merge_consent_scopes Same
merge_consent_scopes-Union authorized requested =
    go (add_unseen [] [] authorized) (add_unseen-Grown [] [] authorized (λ t. refl) tt)
  where
    go :
        (r : List Bytes × List Bytes)
        → Grown [] [] authorized r
        → ((t : Bytes)
            → has_text (add_unseen r.0 r.1 requested).0 t
              ≡ (has_text authorized t || has_text requested t))
          × Distinct (add_unseen r.0 r.1 requested).0
    go (merged, seen) (grown has like apart) =
        elim (add_unseen-Grown merged seen requested like apart) [
          | grown has' like' apart' ↦
              (λ t. has' t ∙ ap (λ b. b || has_text requested t) (has t), apart')
        ]

-- a merged list includes both lists
pub merge-Includes_old :
    (authorized requested : List Bytes)
    → Includes (merge_consent_scopes authorized requested) authorized
merge-Includes_old authorized requested t h =
    (merge_consent_scopes-Union authorized requested).0 t ∙ rw h refl

pub merge-Includes_new :
    (authorized requested : List Bytes)
    → Includes (merge_consent_scopes authorized requested) requested
merge-Includes_new authorized requested t h =
    (merge_consent_scopes-Union authorized requested).0 t ∙ rw h (ground arith)
