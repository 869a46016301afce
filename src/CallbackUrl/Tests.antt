-- ===== src/CallbackUrl/Tests.antt =====
-- Redirect URLs against patterns, with a small library: queries are one value of the key `q`, texts
-- match only themselves, and a compiled pattern is its text.
use pocket_id.Prelude.{true, false, [], ◌∷◌, ◌++◌, ◌≡◌, ◌↔◌, length, All, refl}
use pocket_id.AppError.{plain}
use pocket_id.Result.{ok, err}
use pocket_id.CallbackUrl.Bytes.{
  Bytes, bytes, eq_bytes, cut, itoa, digits, split_at_slash, split_scheme,
}
use pocket_id.CallbackUrl.Normalize.{
  normalized_path, path_from, normalized_base, base_from, extract_path,
  normalize_to_url_pattern_standard,
}
use pocket_id.CallbackUrl.Normalize.Base.{
  unescape, unescape-normalized_base, extract_path_lem, StartsAtSlash,
}
use pocket_id.CallbackUrl.Matching.{
  Library, Values, match_callback_url, match_stripped, match_parts, extract_query_params,
  validate_query_params, keys_match, key_matches, values_match, find, get_callback_url_from_list,
  loopback_url_with_wildcard_port, matches_any_url_pattern,
}
use pocket_id.CallbackUrl.Selection.{
  Selects, get_callback_url_from_list-Selects, match_callback_url-fragment, AnyMatch,
  matches_any_url_pattern_iff,
}
use pocket_id.CallbackUrl.Queries.{Covers, validate_query_params_iff}
use pocket_id.CallbackUrl.Validation.{
  callback_url_pattern_for_url_parse, with_scheme, rebuilt, split_authority, split_userinfo,
  split_last, fix_hostport, fix_port,
}
use pocket_id.CallbackUrl.Validation.Accepted.{Accepted}

abbrev library : Library Unit Bytes
library = record {
  parse = λ s. err (plain "no URL");
  scheme = λ u. [];
  hostname = λ u. [];
  with_host = λ h u. h;
  is_loopback = λ h. false;
  parse_query = λ s. ok ((bytes "q", s ∷ []) ∷ []);
  path_match = λ p s. ok (eq_bytes p s);
  new_pattern = λ s. ok s;
  test = eq_bytes;
}

normalize_test :
    normalize_to_url_pattern_standard (bytes "https://a.test:80/x/*/**")
    ≡ bytes "https://a.test:80/x/:p3/*"
unfolding normalize_to_url_pattern_standard extract_path split_scheme split_at_slash normalized_base
    base_from normalized_path path_from itoa digits
normalize_test = refl

-- In an IPv6 address every colon is escaped.
normalize_ipv6_test :
    normalize_to_url_pattern_standard (bytes "http://[::1]:80/a") ≡ bytes "http://[\\:\\:1]:80/a"
unfolding normalize_to_url_pattern_standard extract_path split_scheme split_at_slash normalized_base
    base_from normalized_path path_from itoa digits
normalize_ipv6_test = refl

-- After the scheme `*` the colons of the host are not escaped.
normalize_any_scheme_test : normalized_base (bytes "*://[::1]") ≡ bytes "*://[::1]"
unfolding normalized_base base_from
normalize_any_scheme_test = refl

-- Where a name follows a single `*`, the name of the wildcard takes it in.
swallowed_test : normalized_path (bytes "/*a") ≡ bytes "/:p1a"
unfolding normalized_path path_from itoa digits
swallowed_test = refl

match_test :
    match_callback_url library (bytes "https://a.test/x?q") (bytes "https://a.test/x?q#f") ≡ ok true
unfolding match_callback_url match_stripped match_parts extract_query_params validate_query_params
    keys_match key_matches values_match find cut normalize_to_url_pattern_standard extract_path
    split_scheme split_at_slash normalized_base base_from normalized_path path_from
match_test = refl

unescape-normalized_base_test :
    unescape false (normalized_base (bytes "http://[::1]:80")) ≡ bytes "http://[::1]:80"
unescape-normalized_base_test = unescape-normalized_base (bytes "http://[::1]:80") refl

extract_path_lem_test :
    ((extract_path (bytes "a://b/c")).0 ++ (extract_path (bytes "a://b/c")).1 ≡ bytes "a://b/c")
    × StartsAtSlash (extract_path (bytes "a://b/c")).1
extract_path_lem_test = extract_path_lem (bytes "a://b/c")

get_callback_url_from_list-Selects_example :
    Selects library
      (bytes "a:b")
      (loopback_url_with_wildcard_port library (bytes "a:b"))
      (bytes "c:d" ∷ bytes "a:b" ∷ [])
      (get_callback_url_from_list library (bytes "c:d" ∷ bytes "a:b" ∷ []) (bytes "a:b"))
get_callback_url_from_list-Selects_example =
    get_callback_url_from_list-Selects library (bytes "c:d" ∷ bytes "a:b" ∷ []) (bytes "a:b")

match_callback_url-fragment_test :
    match_callback_url library (bytes "a:/") (bytes "a:b" ++ (35 ∷ bytes "f"))
    ≡ match_callback_url library (bytes "a:/") (bytes "a:b")
match_callback_url-fragment_test =
    match_callback_url-fragment library (bytes "a:/") (bytes "a:b") (bytes "f") refl (λ e. cc)
      (λ e. cc) (λ e. cc)

matches_any_url_pattern_iff_test :
    (matches_any_url_pattern library (bytes "a:b" ∷ []) (bytes "a:b") ≡ true)
    ↔ AnyMatch library (bytes "a:b") (bytes "a:b" ∷ [])
matches_any_url_pattern_iff_test =
    matches_any_url_pattern_iff library (bytes "a:b" ∷ []) (bytes "a:b")

abbrev query : Values
query = (bytes "q", bytes "1" ∷ []) ∷ []

validate_query_params_iff_example :
    (validate_query_params library query query ≡ true)
    ↔ ((length query ≡ length query) × All (Covers library query) query)
validate_query_params_iff_example = validate_query_params_iff library query query

-- the same library, where every text is a URL with the scheme `https`
abbrev urls : Library Unit Bytes
urls = record library { parse = λ s. ok tt; scheme = λ u. bytes "https" }

port_test :
    callback_url_pattern_for_url_parse (bytes "*://u:*@[::1]:8*/x:*")
    ≡ bytes "https://u:*@[::1]:443/x:*"
unfolding callback_url_pattern_for_url_parse with_scheme split_scheme rebuilt split_authority
    split_userinfo split_last fix_hostport fix_port cut
port_test = refl
