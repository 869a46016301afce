-- ===== src/Oidc/Consent.antt =====
-- backend/internal/oidc/authorization_service.go: when a user has to consent or to sign in again,
-- and how a consent is recorded. The table of consents is `Consents`: gorm's calls on
-- model.UserAuthorizedOidcClient, `last_used_at` left out. Texts are ASCII where they are split into
-- words. Times are nanoseconds since the zero value of time.Time.
pub mod MaxAge
pub mod Merging
pub mod Narrowing
pub mod Recording
use pocket_id.Prelude.{
  ℕ, zero, suc, ◌+◌, ◌*◌, ◌-◌, ◌%◌, ◌≤◌, Bool, true, false, not, ◌&&◌, ◌||◌, Option, none, some,
  List, [], ◌∷◌, ◌++◌, eqb, leb, ltb, all, if◌then◌else◌,
}
use pocket_id.AppError.{Error, app, new_error}
use pocket_id.Result.{Result, ok, err}
use pocket_id.Exec.{Exec, pure, raise, ◌>>=◌, ◌>>◌}
use pocket_id.CallbackUrl.Bytes.{Bytes, bytes, is_digit, value_from}
use pocket_id.Oidc.Scopes.{has_text, invalid_request}

-- the fields of model.OidcClient that an authorization reads
pub record Client : Type 0 where
  pub id : Bytes
  pub name : Bytes
  pub pkce_enabled : Bool
  pub pkce_supported : Bool
  pub requires_pushed_authorization_requests : Bool
  pub requires_reauthentication : Bool
  pub skip_consent : Bool
  pub is_group_restricted : Bool
  pub allowed_user_groups : List Bytes

-- the IDs of the user's groups
pub record User : Type 0 where
  pub id : Bytes
  pub user_groups : List Bytes

abbrev pub is_space : ℕ → Bool
is_space c = eqb c 32 || (leb 9 c && leb c 13)

abbrev pub put_word : Bytes → List Bytes → List Bytes
put_word [] words = words
put_word (c ∷ cs) words = (c ∷ cs) ∷ words

-- the rest of the word at the start of the text, and the words after it
unfoldable pub words_from : Bytes → Bytes × List Bytes
words_from [] = ([], [])
words_from (c ∷ cs) =
    let (word, words) = words_from cs in
    if is_space c then ([], put_word word words) else (c ∷ word, words)

-- `strings.Fields`
unfoldable pub new_prompt_values : Bytes → List Bytes
unfolding words_from
new_prompt_values prompt = let (word, words) = words_from prompt in put_word word words

unfoldable pub consent_required : Bool → Bool → List Bytes → Bool
consent_required has_already_authorized_client client_skips_consent prompt =
    if has_text prompt (bytes "consent")
    then true
    else not has_already_authorized_client && not client_skips_consent

-- `validateClientPKCERequirement`, for the request's `code_challenge`
unfoldable pub validate_client_pkce_requirement : Client → Bytes → Result (Unit {0})
validate_client_pkce_requirement client [] =
    if client.pkce_enabled then err invalid_request else ok tt
validate_client_pkce_requirement client (c ∷ cs) = ok tt

-- `strconv.ParseUint(s, 10, 64)`
unfoldable pub parse_uint : Bytes → Option ℕ
parse_uint [] = none
parse_uint (c ∷ cs) =
    if all is_digit (c ∷ cs) && ltb (value_from 0 (c ∷ cs)) 18446744073709551616
    then some (value_from 0 (c ∷ cs))
    else none

-- `strconv.ParseInt(s, 10, 64)`, none where it fails or is negative
abbrev pub not_negative : Option ℕ → Option ℕ
not_negative none = none
not_negative (some n) = if ltb n 9223372036854775808 then some n else none

abbrev pub negated : Option ℕ → Option ℕ
negated none = none
negated (some n) = if eqb n 0 then some 0 else none

unfoldable pub parse_max_age : Bytes → Option ℕ
unfolding parse_uint
parse_max_age [] = none
parse_max_age (c ∷ cs) =
    if eqb c 45
    then negated (parse_uint cs)
    else if eqb c 43
    then not_negative (parse_uint cs)
    else not_negative (parse_uint (c ∷ cs))

-- `!now.Before(authenticationTime.Add(d))`, where d is the 64-bit word `nanoseconds`
unfoldable pub is_over : ℕ → ℕ → ℕ → Bool
is_over nanoseconds authentication_time now =
    if ltb nanoseconds 9223372036854775808
    then leb (authentication_time + nanoseconds) now
    else leb authentication_time (now + (18446744073709551616 - nanoseconds))

abbrev pub on_max_age : Option ℕ → ℕ → ℕ → Result Bool
on_max_age none authentication_time now = err invalid_request
on_max_age (some max_age) authentication_time now =
    if eqb authentication_time 0
    then ok true
    else ok (is_over (max_age * 1000000000 % 18446744073709551616) authentication_time now)

unfoldable pub requires_reauthentication_for_max_age : Bytes → ℕ → ℕ → Result Bool
unfolding parse_max_age is_over
requires_reauthentication_for_max_age [] authentication_time now = ok false
requires_reauthentication_for_max_age (c ∷ cs) authentication_time now =
    on_max_age (parse_max_age (c ∷ cs)) authentication_time now

unfoldable pub consent_scopes_include : List Bytes → List Bytes → Bool
consent_scopes_include authorized [] = true
consent_scopes_include authorized (s ∷ ss) =
    let rest = consent_scopes_include authorized ss in
    if not (has_text authorized s) then false else rest

-- one of the two loops of `mergeConsentScopes`: the scopes not yet seen, with those seen
unfoldable pub add_unseen : List Bytes → List Bytes → List Bytes → List Bytes × List Bytes
add_unseen merged seen [] = (merged, seen)
add_unseen merged seen (s ∷ ss) =
    let known = has_text seen s in
    add_unseen (if known then merged else merged ++ (s ∷ [])) (if known then seen else s ∷ seen) ss

unfoldable pub merge_consent_scopes : List Bytes → List Bytes → List Bytes
unfolding add_unseen
merge_consent_scopes authorized requested =
    let (merged, seen) = add_unseen [] [] authorized in
    let (both, _) = add_unseen merged seen requested in both

-- the message without the scope's name
abbrev pub not_requested : Error
not_requested = app (new_error "validation_failed" 400 "scope was not requested")

abbrev pub required_consent_scopes : List Bytes
required_consent_scopes = bytes "openid" ∷ []

unfoldable pub keep_approved : List Bytes → List Bytes → List Bytes
keep_approved approved [] = []
keep_approved approved (s ∷ ss) =
    let rest = keep_approved approved ss in
    if has_text approved s || has_text required_consent_scopes s then s ∷ rest else rest

-- no approved scopes: a nil slice
unfoldable pub narrow_approved_scopes : List Bytes → Option (List Bytes) → Result (List Bytes)
unfolding keep_approved consent_scopes_include
narrow_approved_scopes requested none = ok requested
narrow_approved_scopes requested (some approved) =
    if consent_scopes_include requested approved
    then ok (keep_approved approved requested)
    else err not_requested

unfoldable pub group_allowed : List Bytes → List Bytes → Bool
group_allowed [] groups = false
group_allowed (g ∷ gs) groups = has_text groups g || group_allowed gs groups

unfoldable pub is_user_group_allowed_to_authorize : User → Client → Bool
unfolding group_allowed
is_user_group_allowed_to_authorize user client =
    if not client.is_group_restricted
    then true
    else group_allowed client.allowed_user_groups user.user_groups

-- the calls of the database on the record of a client and a user
pub record Consents (W : Type 0) : Type 0 where
  -- `First`: none where gorm reports ErrRecordNotFound
  pub find : Bytes → Bytes → Exec W (Option (List Bytes))
  -- `Update("last_used_at", …)`
  pub touch : Bytes → Bytes → Exec W (Unit {0})
  -- `Updates` of the scopes
  pub replace : Bytes → Bytes → List Bytes → Exec W (Unit {0})
  -- `Create`: false where gorm reports ErrDuplicatedKey
  pub create : Bytes → Bytes → List Bytes → Exec W Bool

module _ {W : Type 0} (consents : Consents W) where
  -- where a record exists
  unfoldable pub consent_again : Bytes → Bytes → List Bytes → List Bytes → Exec W Bool
  unfolding consent_scopes_include merge_consent_scopes
  consent_again user_id client_id scope existing =
      if consent_scopes_include existing scope
      then (do consents.touch client_id user_id; pure true)
      else (do consents.replace client_id user_id (merge_consent_scopes existing scope); pure false)

  -- where none exists; `again` is the call of `consent` itself
  unfoldable pub consent_first : Exec W Bool → Bytes → Bytes → List Bytes → Exec W Bool
  unfolding merge_consent_scopes
  consent_first again user_id client_id scope = do
    created ← consents.create client_id user_id (merge_consent_scopes [] scope)
    if created then pure false else again

  abbrev pub consent_on :
      Exec W Bool → Bytes → Bytes → List Bytes → Option (List Bytes) → Exec W Bool
  consent_on again user_id client_id scope none = consent_first again user_id client_id scope
  consent_on again user_id client_id scope (some existing) =
      consent_again user_id client_id scope existing

  -- `consent` with the calls of itself bounded, and `out` past the bound
  unfoldable pub consent_rounds : ℕ → Exec W Bool → Bytes → Bytes → List Bytes → Exec W Bool
  unfolding consent_first consent_again
  consent_rounds zero out user_id client_id scope = out
  consent_rounds (suc n) out user_id client_id scope = do
    found ← consents.find client_id user_id
    consent_on (consent_rounds n out user_id client_id scope) user_id client_id scope found

  abbrev pub authorized_by : List Bytes → Option (List Bytes) → Bool
  authorized_by scope none = false
  authorized_by scope (some existing) = consent_scopes_include existing scope

  unfoldable pub has_authorized_client : Bytes → Bytes → List Bytes → Exec W Bool
  unfolding consent_scopes_include
  has_authorized_client client_id user_id scope = do
    found ← consents.find client_id user_id
    pure (authorized_by scope found)
