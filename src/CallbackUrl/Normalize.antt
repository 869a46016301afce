-- ===== src/CallbackUrl/Normalize.antt =====
-- backend/internal/utils/callback_url_util.go, from `normalizeToURLPatternStandard` to `extractPath`:
-- a pattern with `*` and `**` is rewritten to the syntax of go-urlpattern.
pub mod Base
use pocket_id.Prelude.{
  ℕ, ◌+◌, Bool, true, false, not, ◌&&◌, ◌||◌, Option, none, some, List, [], ◌∷◌, ◌++◌, eqb, leb,
  ltb, if◌then◌else◌,
}
use pocket_id.CallbackUrl.Bytes.{Bytes, itoa, is_digit, split_at_slash, split_scheme}

-- `step` of `writeNormalizedBase`
pub data Step : Type 0 where
  in_scheme in_host in_ipv6 after_host : Step

-- `isPortSeparator`, for the text after the colon
abbrev pub is_port_separator : Bytes → Bool
is_port_separator [] = false
is_port_separator (c ∷ cs) = is_digit c

-- the step after the byte `c` at index `i`; `p` and `q` are the bytes at `i - 1` and `i - 2`
abbrev pub next_step : Step → ℕ → ℕ → ℕ → ℕ → Step
next_step in_scheme i q p c =
    if ltb 3 i && (eqb c 47 && (eqb p 47 && eqb q 58)) then in_host else in_scheme
next_step in_host i q p c =
    if eqb c 47 || eqb c 93 then after_host else if eqb c 91 then in_ipv6 else in_host
next_step in_ipv6 i q p c = if eqb c 47 || (eqb c 93 || eqb c 91) then after_host else in_ipv6
next_step after_host i q p c = after_host

-- whether a backslash is written before the byte `c` that `cs` follows
abbrev pub is_escaped : Step → ℕ → Bytes → Bool
is_escaped in_scheme c cs = false
is_escaped in_host c cs = eqb c 58 && not (is_port_separator cs)
is_escaped in_ipv6 c cs = eqb c 58
is_escaped after_host c cs = false

-- `writeNormalizedBase` from index `i` on
unfoldable pub base_from : Step → ℕ → ℕ → ℕ → Bytes → Bytes
base_from step i q p [] = []
base_from step i q p (c ∷ cs) =
    let rest = base_from (next_step step i q p c) (i + 1) p c cs in
    if is_escaped step c cs then 92 ∷ c ∷ rest else c ∷ rest

unfoldable pub normalized_base : Bytes → Bytes
normalized_base base = base_from in_scheme 0 0 0 base

abbrev pub starts_with_star : Bytes → Bool
starts_with_star [] = false
starts_with_star (c ∷ cs) = eqb c 42

-- what is written for the byte `c` at index `i`, before `cs`
abbrev pub path_piece : ℕ → ℕ → Bytes → Bytes
path_piece i c cs =
    if eqb c 42
    then (if starts_with_star cs then 42 ∷ [] else 58 ∷ 112 ∷ itoa i)
    else if eqb c 58
    then 92 ∷ 58 ∷ []
    else c ∷ []

-- `writeNormalizedPath` from index `i` on; `skip` tells that the byte is the second of a `**`
unfoldable pub path_from : Bool → ℕ → Bytes → Bytes
path_from skip i [] = []
path_from skip i (c ∷ cs) =
    let rest = path_from (not skip && (eqb c 42 && starts_with_star cs)) (i + 1) cs in
    if skip then rest else path_piece i c cs ++ rest

unfoldable pub normalized_path : Bytes → Bytes
normalized_path path = path_from false 0 path

-- `extractPath`
unfoldable pub extract_path : Bytes → Bytes × Bytes
extract_path url = elim (split_scheme url) [
  | none ↦ split_at_slash url
  | some (scheme, rest) ↦ let (authority, path) = split_at_slash rest in (scheme ++ authority, path)
]

-- `normalizeToURLPatternStandard`
unfoldable pub normalize_to_url_pattern_standard : Bytes → Bytes
normalize_to_url_pattern_standard pattern =
    let (base, path) = extract_path pattern in normalized_base base ++ normalized_path path
