-- ===== src/Outbound/Text.antt =====
-- The text functions of package strings that backend/internal/outbound/policy.go calls, and its tests
-- of host names. Texts are ASCII bytes.
use pocket_id.Prelude.{
  ℕ, ◌+◌, Bool, false, ◌&&◌, ◌||◌, Option, none, some, List, [], ◌∷◌, map, all, eqb, leb, ltb,
  length, if◌then◌else◌,
}
use pocket_id.CallbackUrl.Bytes.{Bytes, eq_bytes}

abbrev pub is_space : ℕ → Bool
is_space c = eqb c 32 || (leb 9 c && leb c 13)

unfoldable pub trim_left : Bytes → Bytes
trim_left [] = []
trim_left (c ∷ cs) = let rest = trim_left cs in if is_space c then rest else c ∷ cs

abbrev pub put_unless_blank : ℕ → Bytes → Bytes
put_unless_blank c [] = if is_space c then [] else c ∷ []
put_unless_blank c (d ∷ ds) = c ∷ d ∷ ds

unfoldable pub trim_right : Bytes → Bytes
trim_right [] = []
trim_right (c ∷ cs) = put_unless_blank c (trim_right cs)

-- `TrimSpace`
unfoldable pub trim_space : Bytes → Bytes
unfolding trim_left trim_right
trim_space s = trim_right (trim_left s)

-- `ToLower`
unfoldable pub to_lower : Bytes → Bytes
to_lower s = map (λ c. if leb 65 c && leb c 90 then c + 32 else c) s

abbrev pub add_to_first : ℕ → List Bytes → List Bytes
add_to_first c [] = (c ∷ []) ∷ []
add_to_first c (t ∷ ts) = (c ∷ t) ∷ ts

-- `SplitSeq(s, ",")`
unfoldable pub split_commas : Bytes → List Bytes
split_commas [] = [] ∷ []
split_commas (c ∷ cs) =
    let rest = split_commas cs in if eqb c 44 then [] ∷ rest else add_to_first c rest

-- `HasSuffix`
unfoldable pub has_suffix : Bytes → Bytes → Bool
has_suffix [] suffix = eq_bytes [] suffix
has_suffix (c ∷ cs) suffix = eq_bytes (c ∷ cs) suffix || has_suffix cs suffix

-- `TrimSuffix(s, ".")`
unfoldable pub trim_dot : Bytes → Bytes
trim_dot [] = []
trim_dot (c ∷ []) = if eqb c 46 then [] else c ∷ []
trim_dot (c ∷ d ∷ ds) = c ∷ trim_dot (d ∷ ds)

unfoldable pub normalize_hostname : Bytes → Bytes
unfolding to_lower trim_dot
normalize_hostname host = trim_dot (to_lower host)

-- `Contains(s, "..")`
unfoldable pub has_double_dot : Bytes → Bool
has_double_dot [] = false
has_double_dot (c ∷ []) = false
has_double_dot (c ∷ d ∷ ds) = (eqb c 46 && eqb d 46) || has_double_dot (d ∷ ds)

abbrev pub starts_with_dot : Bytes → Bool
starts_with_dot [] = false
starts_with_dot (c ∷ cs) = eqb c 46

abbrev pub is_host_byte : ℕ → Bool
is_host_byte c =
    (leb 97 c && leb c 122) || ((leb 48 c && leb c 57) || (eqb c 45 || (eqb c 46 || eqb c 95)))

unfoldable pub is_valid_hostname : Bytes → Bool
unfolding has_double_dot
is_valid_hostname host =
    if eq_bytes host [] || (ltb 253 (length host) || (starts_with_dot host || has_double_dot host))
    then false
    else all is_host_byte host

-- `Contains(s, "/")`
abbrev pub has_slash : Bytes → Bool
has_slash [] = false
has_slash (c ∷ cs) = eqb c 47 || has_slash cs

-- `CutPrefix(s, "*.")`
abbrev pub cut_wildcard : Bytes → Option Bytes
cut_wildcard [] = none
cut_wildcard (c ∷ []) = none
cut_wildcard (c ∷ d ∷ ds) = if eqb c 42 && eqb d 46 then some ds else none
