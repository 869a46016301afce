-- ===== src/CallbackUrl/Matching.antt =====
-- backend/internal/utils/callback_url_util.go: the match of a pattern and a URL, and the searches
-- through lists of patterns.
use pocket_id.Prelude.{
  ℕ, Bool, true, false, not, ◌&&◌, ◌||◌, Option, none, some, List, [], ◌∷◌, ◌++◌, eqb, length,
  if◌then◌else◌,
}
use pocket_id.Result.{Result, ok, err, ◌>>=◌}
use pocket_id.CallbackUrl.Bytes.{Bytes, bytes, eq_bytes, cut}
use pocket_id.CallbackUrl.Normalize.{normalize_to_url_pattern_standard}

-- url.Values: each key once
abbrev pub Values : Type 0
Values = List (Bytes × List Bytes)

-- The operations of net/url, net, path and go-urlpattern that the file calls. `U` is `*url.URL`, `P`
-- is a compiled pattern.
pub record Library (U P : Type 0) : Type 0 where
  -- url.Parse
  pub parse : Bytes → Result U
  pub scheme : U → Bytes
  pub hostname : U → Bytes
  -- `u.Host = host` and `u.String()`
  pub with_host : Bytes → U → Bytes
  -- `net.ParseIP(host)` is not nil and `IsLoopback()`
  pub is_loopback : Bytes → Bool
  pub parse_query : Bytes → Result Values
  pub path_match : Bytes → Bytes → Result Bool
  -- `urlpattern.New(pattern, "", nil)`, and `p.Test(input, "")`
  pub new_pattern : Bytes → Result P
  pub test : P → Bytes → Bool

abbrev pub is_ok_true : Result Bool → Bool
is_ok_true (ok b) = b
is_ok_true (err e) = false

abbrev pub has_byte : ℕ → Bytes → Bool
has_byte c [] = false
has_byte c (x ∷ xs) = eqb x c || has_byte c xs

-- `inputQuery[key]`
unfoldable pub find : Bytes → Values → Option (List Bytes)
find key [] = none
find key ((k, values) ∷ m) = let rest = find key m in if eq_bytes k key then some values else rest

module _ {U P : Type 0} (library : Library U P) where
  -- `len(patternValues) != len(inputValues)` and the loop over the values
  unfoldable pub values_match : List Bytes → List Bytes → Bool
  values_match [] [] = true
  values_match (p ∷ ps) (v ∷ vs) = is_ok_true (library.path_match p v) && values_match ps vs
  values_match _ _ = false

  unfoldable pub key_matches : Option (List Bytes) → List Bytes → Bool
  key_matches none patterns = false
  key_matches (some values) patterns = values_match patterns values

  -- the loop over `patternQuery`; the order of the keys does not matter
  unfoldable pub keys_match : Values → Values → Bool
  keys_match [] input_query = true
  keys_match ((key, patterns) ∷ m) input_query =
      key_matches (find key input_query) patterns && keys_match m input_query

  unfoldable pub validate_query_params : Values → Values → Bool
  validate_query_params pattern_query input_query =
      eqb (length pattern_query) (length input_query) && keys_match pattern_query input_query

  -- the text before the `?`, and the values after it
  unfoldable pub extract_query_params : Bytes → Result (Bytes × Values)
  extract_query_params raw_url =
      let (base, query) = cut 63 raw_url in
      elim query [
        | none ↦ ok (base, [])
        | some text ↦ do values ← library.parse_query text; ok (base, values)
      ]

  abbrev pub tested : Result P → Bytes → Bool
  tested (err e) input = false
  tested (ok p) input = library.test p input

  -- the rest of `matchCallbackURL` after both queries are cut off
  unfoldable pub match_parts : Bytes × Values → Bytes × Values → Bool
  match_parts (pattern, pattern_query) (input, input_query) =
      validate_query_params pattern_query input_query
      && tested (library.new_pattern (normalize_to_url_pattern_standard pattern)) input

  unfoldable pub match_stripped : Bytes → Bytes → Result Bool
  match_stripped pattern input = do
    pattern_parts ← extract_query_params pattern
    input_parts ← extract_query_params input
    ok (match_parts pattern_parts input_parts)

  unfoldable pub match_callback_url : Bytes → Bytes → Result Bool
  match_callback_url pattern input =
      if eq_bytes pattern input || eq_bytes pattern (bytes "*")
      then ok true
      else match_stripped (cut 35 pattern).0 (cut 35 input).0

  unfoldable pub loopback_of : U → Bytes
  loopback_of u =
      if not (eq_bytes (library.scheme u) (bytes "http"))
      then []
      else if not (eq_bytes (library.hostname u) (bytes "localhost"))
          && not (library.is_loopback (library.hostname u))
      then []
      else if has_byte 58 (library.hostname u)
      then library.with_host (91 ∷ library.hostname u ++ (93 ∷ [])) u
      else library.with_host (library.hostname u) u

  -- the empty text where the URL is not a loopback one
  unfoldable pub loopback_url_with_wildcard_port : Bytes → Bytes
  loopback_url_with_wildcard_port input = elim (library.parse input) [
    | err e ↦ []
    | ok u ↦ loopback_of u
  ]

  -- the second attempt for one pattern, with the loopback variant
  unfoldable pub match_loopback : Bytes → Bytes → Result Bool
  match_loopback [] pattern = ok false
  match_loopback (c ∷ cs) pattern = match_callback_url pattern (c ∷ cs)

  -- one round of the loop: the original URL, then the loopback variant
  unfoldable pub match_either : Bytes → Bytes → Bytes → Result Bool
  match_either input loopback pattern = do
    matches ← match_callback_url pattern input
    if matches then ok true else match_loopback loopback pattern

  unfoldable pub first_match : Bytes → Bytes → List Bytes → Result Bytes
  first_match input loopback [] = ok []
  first_match input loopback (pattern ∷ patterns) = do
    matches ← match_either input loopback pattern
    if matches then ok input else first_match input loopback patterns

  unfoldable pub get_callback_url_from_list : List Bytes → Bytes → Result Bytes
  get_callback_url_from_list urls input =
      first_match input (loopback_url_with_wildcard_port input) urls

  unfoldable pub matches_any_url_pattern : List Bytes → Bytes → Bool
  matches_any_url_pattern [] input = false
  matches_any_url_pattern (pattern ∷ patterns) input =
      is_ok_true (match_callback_url pattern input) || matches_any_url_pattern patterns input
