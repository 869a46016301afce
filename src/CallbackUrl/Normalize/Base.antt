-- ===== src/CallbackUrl/Normalize/Base.antt =====
-- The scheme and authority of a pattern keep their text: normalization only adds backslashes before
-- colons, and `extract_path` only divides the text.
use pocket_id.Prelude.{
  ℕ, zero, suc, ◌+◌, Bool, true, false, not, ◌&&◌, Option, none, some, [], ◌∷◌, ◌++◌, eqb,
  if◌then◌else◌, ◌≡◌, inl, inr, refl, ap, ◌∙◌, arith, Bool-cases, take, drop,
}
use pocket_id.CallbackUrl.Bytes.{Bytes, lacks, split_at_slash, split_scheme, has_scheme_end}
use pocket_id.CallbackUrl.Normalize.{
  Step, in_scheme, next_step, is_escaped, base_from, normalized_base, extract_path,
}

-- A reader of escaped text: a backslash stands for the byte after it.
unfoldable pub unescape : Bool → Bytes → Bytes
unescape escaped [] = []
unescape escaped (c ∷ cs) =
    let skips = not escaped && eqb c 92 in
    let rest = unescape skips cs in if skips then rest else c ∷ rest

unescape-base_from :
    (step : Step) (i q p : ℕ) (s : Bytes)
    → lacks 92 s ≡ true
    → unescape false (base_from step i q p s) ≡ s
unfolding unescape base_from
unescape-base_from step i q p [] h = refl
unescape-base_from step i q p (c ∷ cs) h =
    let ih = unescape-base_from (next_step step i q p c) (i + 1) p c cs (ground arith) in
    let plain_byte : eqb c 92 ≡ false = ground arith in
    elim (Bool-cases (is_escaped step c cs)) [
      | inl escaped ↦ rw escaped (ap (◌∷◌ c) ih)
      | inr not_escaped ↦ rw (not_escaped, plain_byte) (ap (◌∷◌ c) ih)
    ]

-- Normalizing the scheme and the authority of a pattern that has no backslash changes nothing but to
-- add backslashes: read with each backslash standing for the byte after it, the text is the same.
pub unescape-normalized_base :
    (base : Bytes) → lacks 92 base ≡ true → unescape false (normalized_base base) ≡ base
unfolding normalized_base
unescape-normalized_base base h = unescape-base_from in_scheme 0 0 0 base h

abbrev pub StartsAtSlash : Bytes → Type 0
StartsAtSlash [] = Unit
StartsAtSlash (c ∷ cs) = c ≡ 47

split_at_slash_lem :
    (s : Bytes)
    → ((split_at_slash s).0 ++ (split_at_slash s).1 ≡ s)
      × StartsAtSlash (split_at_slash s).1
      × (lacks 47 (split_at_slash s).0 ≡ true)
unfolding split_at_slash
split_at_slash_lem [] = (refl, tt, refl)
split_at_slash_lem (x ∷ xs) =
    let (joined, slash, clean) = split_at_slash_lem xs in
    elim (Bool-cases (eqb x 47)) [
      | inl here ↦ rw here (refl, ground arith, refl)
      | inr later ↦ rw later (ap (◌∷◌ x) joined, slash, ground arith)
    ]

-- `extract_path` after the search for the scheme
abbrev parts : Bytes → Option (Bytes × Bytes) → Bytes × Bytes
parts url o = elim o [
  | none ↦ split_at_slash url
  | some (scheme, rest) ↦ let (authority, path) = split_at_slash rest in (scheme ++ authority, path)
]

abbrev JoinedScheme : Option (Bytes × Bytes) → Bytes → Type 0
JoinedScheme none s = Unit
JoinedScheme (some (before, after)) s = before ++ after ≡ s

take-drop : (n : ℕ) (s : Bytes) → take n s ++ drop n s ≡ s
take-drop zero s = refl
take-drop (suc n) [] = refl
take-drop (suc n) (x ∷ s) = ap (◌∷◌ x) (take-drop n s)

joined_more :
    (x : ℕ) (o : Option (Bytes × Bytes)) (s : Bytes)
    → JoinedScheme o s
    → JoinedScheme
        (elim o [ none ↦ none | some (before, after) ↦ some (x ∷ before, after) ])
        (x ∷ s)
joined_more x none s h = tt
joined_more x (some (before, after)) s h = ap (◌∷◌ x) h

append_assoc : (a b c : Bytes) → (a ++ b) ++ c ≡ a ++ (b ++ c)
append_assoc [] b c = refl
append_assoc (x ∷ a) b c = ap (◌∷◌ x) (append_assoc a b c)

parts_joined :
    (url : Bytes) (o : Option (Bytes × Bytes))
    → JoinedScheme o url
    → ((parts url o).0 ++ (parts url o).1 ≡ url) × StartsAtSlash (parts url o).1
parts_joined url none h = let (joined, slash, _) = split_at_slash_lem url in (joined, slash)
parts_joined url (some (scheme, rest)) h =
    let (joined, slash, _) = split_at_slash_lem rest in
    (append_assoc scheme _ _ ∙ ap (◌++◌ scheme) joined ∙ h, slash)

split_scheme_lem : (s : Bytes) → JoinedScheme (split_scheme s) s
unfolding split_scheme
split_scheme_lem [] = tt
split_scheme_lem (x ∷ xs) = elim (Bool-cases (has_scheme_end (x ∷ xs))) [
  | inl here ↦ rw here (take-drop 3 (x ∷ xs))
  | inr later ↦ rw later (joined_more x (split_scheme xs) xs (split_scheme_lem xs))
]

-- `extract_path` divides a text: the two parts joined are the text again, and the path is empty or
-- starts at a slash.
pub extract_path_lem :
    (url : Bytes)
    → ((extract_path url).0 ++ (extract_path url).1 ≡ url) × StartsAtSlash (extract_path url).1
unfolding extract_path
extract_path_lem url = parts_joined url (split_scheme url) (split_scheme_lem url)
