-- ===== src/CallbackUrl/Selection.antt =====
-- The redirect URL that a list of patterns yields: the URL that was asked for, on the first pattern
-- that allows it, and no other text (backend/internal/utils/callback_url_util.go).
use pocket_id.Prelude.{
  Bool, true, false, List, [], ◌∷◌, ◌++◌, if◌then◌else◌, All, Bool-cases, ◌≡◌, ◌≢◌, ◌⊎◌, ◌↔◌, inl,
  inr, refl, ap, arith,
}
use pocket_id.AppError.{Error}
use pocket_id.Result.{Result, ok, err, ◌>>=◌}
use pocket_id.CallbackUrl.Bytes.{Bytes, bytes, eq_bytes, eq_bytes_iff, lacks, cut-lacks, cut-append}
use pocket_id.CallbackUrl.Matching.{
  Library, is_ok_true, match_callback_url, match_loopback, match_either, first_match,
  get_callback_url_from_list, loopback_url_with_wildcard_port, matches_any_url_pattern,
}

module _ {U P : Type 0} (library : Library U P) where
  -- the pattern matches the URL, or its loopback variant where it has one
  pub data Allows (input loopback pattern : Bytes) : Type 0 where
    direct : match_callback_url library pattern input ≡ ok true → Allows input loopback pattern
    by_loopback :
        match_callback_url library pattern input ≡ ok false
        → loopback ≢ []
        → match_callback_url library pattern loopback ≡ ok true
        → Allows input loopback pattern

  -- the pattern is well formed and matches neither
  pub data Misses (input loopback pattern : Bytes) : Type 0 where
    misses :
        match_callback_url library pattern input ≡ ok false
        → (loopback ≡ []) ⊎ (match_callback_url library pattern loopback ≡ ok false)
        → Misses input loopback pattern

  -- the pattern, or the query of a URL, is malformed
  pub data Breaks (input loopback pattern : Bytes) (e : Error) : Type 0 where
    directly : match_callback_url library pattern input ≡ err e → Breaks input loopback pattern e
    on_loopback :
        match_callback_url library pattern input ≡ ok false
        → loopback ≢ []
        → match_callback_url library pattern loopback ≡ err e
        → Breaks input loopback pattern e

  -- what one round of the loop finds
  data Round (input loopback pattern : Bytes) : Result Bool → Type 0 where
    allowed : Allows input loopback pattern → Round input loopback pattern (ok true)
    missed : Misses input loopback pattern → Round input loopback pattern (ok false)
    broken : (e : Error) → Breaks input loopback pattern e → Round input loopback pattern (err e)

  Round-loopback :
      (input loopback pattern : Bytes)
      → match_callback_url library pattern input ≡ ok false
      → Round input loopback pattern (match_loopback library loopback pattern)
  unfolding match_loopback
  Round-loopback input [] pattern e = missed (misses e (inl refl))
  Round-loopback input (c ∷ cs) pattern e = go (match_callback_url library pattern (c ∷ cs)) refl
    where
      go :
          (r : Result Bool)
          → match_callback_url library pattern (c ∷ cs) ≡ r
          → Round input (c ∷ cs) pattern r
      go (ok true) h = allowed (by_loopback e (λ p. cc) h)
      go (ok false) h = missed (misses e (inr h))
      go (err x) h = broken x (on_loopback e (λ p. cc) h)

  match_either-Round :
      (input loopback pattern : Bytes)
      → Round input loopback pattern (match_either library input loopback pattern)
  unfolding match_either
  match_either-Round input loopback pattern = go (match_callback_url library pattern input) refl
    where
      go :
          (r : Result Bool)
          → match_callback_url library pattern input ≡ r
          → Round input loopback pattern (
              r >>= λ matches. if matches then ok true else match_loopback library loopback pattern)
      go (ok true) h = allowed (direct h)
      go (ok false) h = Round-loopback input loopback pattern h
      go (err x) h = broken x (directly h)

  -- what a search through `urls` yields
  pub data Selects (input loopback : Bytes) (urls : List Bytes) : Result Bytes → Type 0 where
    unmatched : All (Misses input loopback) urls → Selects input loopback urls (ok [])
    matched :
        (before : List Bytes) (pattern : Bytes) (later : List Bytes)
        → urls ≡ before ++ (pattern ∷ later)
        → All (Misses input loopback) before
        → Allows input loopback pattern
        → Selects input loopback urls (ok input)
    failed :
        (before : List Bytes) (pattern : Bytes) (later : List Bytes) (e : Error)
        → urls ≡ before ++ (pattern ∷ later)
        → All (Misses input loopback) before
        → Breaks input loopback pattern e
        → Selects input loopback urls (err e)

  one_more :
      (input loopback pattern : Bytes) (urls : List Bytes) (r : Result Bytes)
      → Misses input loopback pattern
      → Selects input loopback urls r
      → Selects input loopback (pattern ∷ urls) r
  one_more input loopback pattern urls r m (unmatched all_missed) = unmatched (m, all_missed)
  one_more input loopback pattern urls r m (matched before p later e missed_before a) =
      matched (pattern ∷ before) p later (ap (◌∷◌ pattern) e) (m, missed_before) a
  one_more input loopback pattern urls r m (failed before p later x e missed_before b) =
      failed (pattern ∷ before) p later x (ap (◌∷◌ pattern) e) (m, missed_before) b

  Selects-Round :
      (input loopback pattern : Bytes) (urls : List Bytes) (round : Result Bool)
      (rest : Result Bytes)
      → Round input loopback pattern round
      → Selects input loopback urls rest
      → Selects input loopback
          (pattern ∷ urls)
          (round >>= λ matches. if matches then ok input else rest)
  Selects-Round input loopback pattern urls _ rest (allowed a) s = matched [] pattern urls refl tt a
  Selects-Round input loopback pattern urls _ rest (missed m) s =
      one_more input loopback pattern urls rest m s
  Selects-Round input loopback pattern urls _ rest (broken e b) s =
      failed [] pattern urls e refl tt b

  first_match-Selects :
      (input loopback : Bytes) (urls : List Bytes)
      → Selects input loopback urls (first_match library input loopback urls)
  unfolding first_match
  first_match-Selects input loopback [] = unmatched tt
  first_match-Selects input loopback (pattern ∷ urls) =
      Selects-Round input loopback pattern urls (match_either library input loopback pattern) _
        (match_either-Round input loopback pattern) (first_match-Selects input loopback urls)

  -- What `GetCallbackURLFromList` yields, for every list of patterns: the empty text where every
  -- pattern misses the URL and its loopback variant; the URL itself where a pattern allows it and all
  -- earlier ones miss it; or the error of a pattern, which is malformed itself or cannot
  -- be matched with the URL, where all earlier ones miss it.
  pub get_callback_url_from_list-Selects :
      (urls : List Bytes) (input : Bytes)
      → Selects input
          (loopback_url_with_wildcard_port library input)
          urls
          (get_callback_url_from_list library urls input)
  unfolding get_callback_url_from_list
  get_callback_url_from_list-Selects urls input = first_match-Selects input _ urls

  apart : (a b : Bytes) → a ≢ b → eq_bytes a b ≡ false
  apart a b n = elim (Bool-cases (eq_bytes a b)) [
    | inl same ↦ absurd (n ((eq_bytes_iff a b).0 same))
    | inr differs ↦ differs
  ]

  -- The fragment of a URL does not decide: a pattern that is neither `*` nor the URL itself, with or
  -- without its fragment, matches the URL with the fragment exactly where it matches it without.
  pub match_callback_url-fragment :
      (pattern url fragment : Bytes)
      → lacks 35 url ≡ true
      → pattern ≢ bytes "*"
      → pattern ≢ url
      → pattern ≢ url ++ (35 ∷ fragment)
      → match_callback_url library pattern (url ++ (35 ∷ fragment))
        ≡ match_callback_url library pattern url
  unfolding match_callback_url
  match_callback_url-fragment pattern url fragment clean star same same_fragment =
      rw
        (
          apart pattern (bytes "*") star,
          apart pattern url same,
          apart pattern (url ++ (35 ∷ fragment)) same_fragment,
          cut-append 35 url fragment clean,
          cut-lacks 35 url clean,
        )
        refl

  -- some pattern of the list matches
  pub data AnyMatch (input : Bytes) : List Bytes → Type 0 where
    here :
        {pattern : Bytes} {patterns : List Bytes}
        → match_callback_url library pattern input ≡ ok true
        → AnyMatch input (pattern ∷ patterns)
    later :
        {pattern : Bytes} {patterns : List Bytes}
        → AnyMatch input patterns
        → AnyMatch input (pattern ∷ patterns)

  ok_true : (r : Result Bool) → is_ok_true r ≡ true → r ≡ ok true
  ok_true (ok true) h = refl
  ok_true (ok false) h = cc
  ok_true (err e) h = cc

  AnyMatch-of :
      (patterns : List Bytes) (input : Bytes)
      → matches_any_url_pattern library patterns input ≡ true
      → AnyMatch input patterns
  unfolding matches_any_url_pattern
  AnyMatch-of [] input h = cc
  AnyMatch-of (pattern ∷ patterns) input h =
      elim (Bool-cases (is_ok_true (match_callback_url library pattern input))) [
        | inl hit ↦ here (ok_true _ hit)
        | inr miss ↦ later (AnyMatch-of patterns input (ground arith))
      ]

  any_of_AnyMatch :
      {input : Bytes} {patterns : List Bytes}
      → AnyMatch input patterns
      → matches_any_url_pattern library patterns input ≡ true
  unfolding matches_any_url_pattern
  any_of_AnyMatch (here h) = rw h refl
  any_of_AnyMatch (later m) = ground (arith, any_of_AnyMatch m)

  -- A URL is accepted exactly when some pattern of the list matches it; malformed patterns are passed
  -- over.
  pub matches_any_url_pattern_iff :
      (patterns : List Bytes) (input : Bytes)
      → (matches_any_url_pattern library patterns input ≡ true) ↔ AnyMatch input patterns
  matches_any_url_pattern_iff patterns input = (AnyMatch-of patterns input, any_of_AnyMatch)
