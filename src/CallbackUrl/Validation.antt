-- ===== src/CallbackUrl/Validation.antt =====
-- backend/internal/utils/callback_url_util.go: which patterns may be stored for a client
-- (`ValidateCallbackURLPattern` and the two functions below it).
pub mod Accepted
use pocket_id.Prelude.{
  ℕ, Bool, ◌&&◌, ◌||◌, Option, none, some, [], ◌∷◌, ◌++◌, eqb, leb, ◌+◌, if◌then◌else◌,
}
use pocket_id.AppError.{plain}
use pocket_id.Result.{Result, ok, err, ◌>>=◌, ◌>>◌}
use pocket_id.CallbackUrl.Bytes.{Bytes, bytes, eq_bytes, cut, split_scheme}
use pocket_id.CallbackUrl.Normalize.{normalize_to_url_pattern_standard}
use pocket_id.CallbackUrl.Matching.{Library, has_byte}

-- the text before the first `/`, `?` or `#`, and the text from it on
unfoldable pub split_authority : Bytes → Bytes × Bytes
split_authority [] = ([], [])
split_authority (x ∷ xs) =
    let (before, rest) = split_authority xs in
    if eqb x 47 || (eqb x 63 || eqb x 35) then ([], x ∷ xs) else (x ∷ before, rest)

-- the text up to the last `c` and with it, and the text after it: `strings.LastIndex`
unfoldable pub split_last : ℕ → Bytes → Option (Bytes × Bytes)
split_last c [] = none
split_last c (x ∷ xs) = elim (split_last c xs) [
  | some (before, after) ↦ some (x ∷ before, after)
  | none ↦ if eqb x c then some (x ∷ [], xs) else none
]

-- the user information with its `@`, and the host and port
unfoldable pub split_userinfo : Bytes → Bytes × Bytes
split_userinfo authority = elim (split_last 64 authority) [
  | none ↦ ([], authority)
  | some parts ↦ parts
]

-- after the `]` of an IPv6 address: a port with `*` becomes 443
unfoldable pub fix_port : Bytes → Bytes
fix_port [] = []
fix_port (c ∷ port) = if eqb c 58 && has_byte 42 port then c ∷ bytes "443" else c ∷ port

-- the host and port with a port that can be parsed; none where a `[` has no `]`
unfoldable pub fix_hostport : Bytes → Option Bytes
fix_hostport [] = some []
fix_hostport (c ∷ cs) =
    if eqb c 91
    then (let (address, port) = cut 93 (c ∷ cs) in
        elim port [ none ↦ none | some rest ↦ some (address ++ (93 ∷ fix_port rest)) ])
    else elim (split_last 58 (c ∷ cs)) [
      | none ↦ some (c ∷ cs)
      | some (host, port) ↦ some (if has_byte 42 port then host ++ bytes "443" else c ∷ cs)
    ]

-- `strings.CutPrefix(pattern, "*://")`
unfoldable pub with_scheme : Bytes → Bytes
with_scheme (a ∷ b ∷ c ∷ d ∷ rest) =
    if eqb a 42 && (eqb b 58 && (eqb c 47 && eqb d 47))
    then bytes "https://" ++ rest
    else a ∷ b ∷ c ∷ d ∷ rest
with_scheme pattern = pattern

unfoldable pub rebuilt : Bytes → Bytes → Bytes × Bytes → Bytes
rebuilt pattern scheme (authority, suffix) =
    let (userinfo, hostport) = split_userinfo authority in
    elim (fix_hostport hostport) [
      | none ↦ pattern
      | some fixed ↦ scheme ++ (userinfo ++ (fixed ++ suffix))
    ]

-- `callbackURLPatternForURLParse`
unfoldable pub callback_url_pattern_for_url_parse : Bytes → Bytes
callback_url_pattern_for_url_parse pattern =
    let named = with_scheme pattern in
    elim (split_scheme named) [
      | none ↦ named
      | some (scheme, rest) ↦ rebuilt named scheme (split_authority rest)
    ]

-- `strings.ToLower`, on the ASCII text of a scheme
abbrev pub to_lower : Bytes → Bytes
to_lower [] = []
to_lower (c ∷ cs) = (if leb 65 c && leb c 90 then c + 32 else c) ∷ to_lower cs

abbrev pub is_forbidden : Bytes → Bool
is_forbidden scheme = eq_bytes scheme (bytes "javascript") || eq_bytes scheme (bytes "data")

module _ {U P : Type 0} (library : Library U P) where
  unfoldable pub check_scheme : Bytes → Result (Unit {0})
  check_scheme scheme =
      if eq_bytes scheme []
      then err (plain "callback URL pattern must include a scheme")
      else if is_forbidden (to_lower scheme)
      then err (plain "callback URL pattern scheme is not allowed")
      else ok tt

  -- `validateCallbackURLPatternURL`
  unfoldable pub validate_callback_url_pattern_url : Bytes → Result (Unit {0})
  validate_callback_url_pattern_url pattern = do
    u ← library.parse (callback_url_pattern_for_url_parse pattern)
    check_scheme (library.scheme u)

  unfoldable pub compiles : Bytes → Result (Unit {0})
  compiles pattern = do p ← library.new_pattern (normalize_to_url_pattern_standard pattern); ok tt

  -- `ValidateCallbackURLPattern`
  unfoldable pub validate_callback_url_pattern : Bytes → Result (Unit {0})
  validate_callback_url_pattern pattern =
      if eq_bytes pattern (bytes "*")
      then ok tt
      else do validate_callback_url_pattern_url (cut 35 pattern).0; compiles (cut 35 pattern).0
