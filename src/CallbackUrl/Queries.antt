-- ===== src/CallbackUrl/Queries.antt =====
-- The query of a redirect URL against the query of a pattern (`validateQueryParams` in
-- backend/internal/utils/callback_url_util.go).
use pocket_id.Prelude.{
  Bool, true, false, Option, none, some, List, [], ◌∷◌, length, All, ◌≡◌, ◌↔◌, refl, arith,
}
use pocket_id.Result.{Result, ok, err}
use pocket_id.CallbackUrl.Bytes.{Bytes}
use pocket_id.CallbackUrl.Matching.{
  Library, Values, is_ok_true, find, values_match, key_matches, keys_match, validate_query_params,
}

module _ {U P : Type 0} (library : Library U P) where
  -- as many values as patterns, each matched by its own
  pub data Pairwise : List Bytes → List Bytes → Type 0 where
    done : Pairwise [] []
    pair :
        {p v : Bytes} {ps vs : List Bytes}
        → library.path_match p v ≡ ok true
        → Pairwise ps vs
        → Pairwise (p ∷ ps) (v ∷ vs)

  ok_of_test : (r : Result Bool) → is_ok_true r ≡ true → r ≡ ok true
  ok_of_test (ok true) h = refl
  ok_of_test (ok false) h = cc
  ok_of_test (err e) h = cc

  Pairwise-of : (ps vs : List Bytes) → values_match library ps vs ≡ true → Pairwise ps vs
  unfolding values_match
  Pairwise-of [] [] h = done
  Pairwise-of [] (v ∷ vs) h = cc
  Pairwise-of (p ∷ ps) [] h = cc
  Pairwise-of (p ∷ ps) (v ∷ vs) h =
      pair (ok_of_test (library.path_match p v) (ground arith)) (Pairwise-of ps vs (ground arith))

  test_of_Pairwise : {ps vs : List Bytes} → Pairwise ps vs → values_match library ps vs ≡ true
  unfolding values_match
  test_of_Pairwise done = refl
  test_of_Pairwise (pair h t) = rw h (test_of_Pairwise t)

  -- the input has the key, with values that the patterns match
  pub data Covers (input_query : Values) (entry : Bytes × List Bytes) : Type 0 where
    covers :
        (values : List Bytes)
        → find entry.0 input_query ≡ some values
        → Pairwise entry.1 values
        → Covers input_query entry

  Covers-of :
      (key : Bytes) (patterns : List Bytes) (input_query : Values) (o : Option (List Bytes))
      → find key input_query ≡ o
      → key_matches library o patterns ≡ true
      → Covers input_query (key, patterns)
  unfolding key_matches
  Covers-of key patterns input_query none e h = cc
  Covers-of key patterns input_query (some values) e h =
      covers values e (Pairwise-of patterns values h)

  test_of_Covers :
      (key : Bytes) (patterns : List Bytes) (input_query : Values)
      → Covers input_query (key, patterns)
      → key_matches library (find key input_query) patterns ≡ true
  unfolding key_matches
  test_of_Covers key patterns input_query (covers values e h) = rw e (test_of_Pairwise h)

  All-of :
      (m input_query : Values)
      → keys_match library m input_query ≡ true
      → All (Covers input_query) m
  unfolding keys_match
  All-of [] input_query h = tt
  All-of ((key, patterns) ∷ m) input_query h = (
    Covers-of key patterns input_query _ refl (ground arith),
    All-of m input_query (ground arith),
  )

  test_of_All :
      (m input_query : Values)
      → All (Covers input_query) m
      → keys_match library m input_query ≡ true
  unfolding keys_match
  test_of_All [] input_query h = refl
  test_of_All ((key, patterns) ∷ m) input_query h =
      ground (arith, test_of_Covers key patterns input_query h.0, test_of_All m input_query h.1)

  -- A query fits the query of a pattern exactly where both have as many keys, and for each key of the
  -- pattern the URL has as many values as the pattern, each matched by the pattern at its place.
  pub validate_query_params_iff :
      (pattern_query input_query : Values)
      → (validate_query_params library pattern_query input_query ≡ true)
        ↔ ((length pattern_query ≡ length input_query) × All (Covers input_query) pattern_query)
  unfolding validate_query_params
  validate_query_params_iff m input_query = (
    (λ h. (ground arith, All-of m input_query (ground arith))),
    (λ (same, h). let t = test_of_All m input_query h in ground arith),
  )
