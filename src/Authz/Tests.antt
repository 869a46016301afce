-- ===== src/Authz/Tests.antt =====
-- The middleware at concrete requests: the theorems applied to them, and tests of the definitions.
use pocket_id.Prelude.{
  ℕ, ◌+◌, String, Bool, true, false, not, ◌&&◌, Option, none, some, ◌≡◌, ◌≢◌, ◌↔◌, refl, ◌==◌,
  lookup, if◌then◌else◌,
}
use pocket_id.AppError.{plain, missing_scope, email_verification_required, api_key_auth_not_allowed}
use pocket_id.Result.{ok, err}
use pocket_id.Authz.Scope.{
  kind_session, kind_api_key, kind_oauth_user, kind_oauth_client, account_read, account_session,
  users_read, has, user_scopes, scopes_from, grant, catalog, definitions, grantable_to,
  unverified_scopes,
}
use pocket_id.Authz.Scope.Grants.{
  gives_or_zero, has-user_scopes, grantable_to-user_scopes, grantable_to-oauth_client,
  grantable_to-session_only,
}
use pocket_id.Authz.Principal.{Principal, restrict_unverified, has-restrict_unverified}
use pocket_id.Authz.Middleware.{
  anonymous, authorized, rejected, require, authenticate, decide, after,
}
use pocket_id.Authz.Middleware.Resolution.{Resolves, found, later, Exhausts, absent}
use pocket_id.Authz.Middleware.Decisions.{
  require-authorized_iff, require-rejected, require-anonymous_iff,
}
use pocket_id.Authz.Authenticators.{
  User, Token, Request, Backend, session_token, with_restriction, admit, authenticate_token,
  session_authenticator, api_key_authenticator, authorization, can_be_pending, session_principal,
  api_key_principal, restrict_with,
}
use pocket_id.Authz.Authenticators.Sessions.{
  Loaded, Entitles, require-Entitles, session_only_needs_token,
}

abbrev ann : User
ann = record { id = "ann"; email = none; email_verified = true; is_admin = false; disabled = false }

abbrev token : Token
token = record { authentication_method = ok "pwd"; issued_at = 5; subject = some "ann" }

-- The world counts the API keys that were validated.
abbrev backend : Backend ℕ
backend = record {
  verify_access_token = λ t w. if t == "good" then ok token else err (plain "bad token");
  get_user = λ id w. (if id == "ann" then ok ann else err (plain "no user"), w);
  validate_api_key = λ k w. (if k == "key" then ok ann else err (plain "no key"), w + 1);
  get_config = λ w. (ok "required", w);
}

abbrev ask : Option String → String → Request
ask cookie key = record {
  access_token_cookie = cookie;
  authorization_header = "";
  api_key_header = key;
}

abbrev by_session : Request
by_session = ask (some "good") ""

abbrev by_key : Request
by_key = ask none "key"

abbrev nobody : Request
nobody = ask none ""

abbrev ann_session : Principal
ann_session = session_principal backend "pwd" 5 ann

abbrev ann_key : Principal
ann_key = api_key_principal backend ann

opened : Unit {0}
unfolding require authenticate decide after session_authenticator api_key_authenticator
    session_token authenticate_token admit with_restriction restrict_with user_scopes scopes_from
    grant catalog grantable_to lookup definitions can_be_pending
opened = tt

passes_by_session :
    require (authorization backend) account_session false by_session 7 ≡ (authorized ann_session, 7)
unfolding opened
passes_by_session = refl

-- a session-only scope: the key is not even looked at
key_is_kept_out :
    require (authorization backend) account_session false by_key 7
    ≡ (rejected api_key_auth_not_allowed, 7)
unfolding opened
key_is_kept_out = refl

passes_by_key :
    require (authorization backend) account_read false by_key 7 ≡ (authorized ann_key, 8)
unfolding opened
passes_by_key = refl

key_lacks_scope :
    require (authorization backend) users_read true by_key 7
    ≡ (rejected (missing_scope users_read), 8)
unfolding opened
key_lacks_scope = refl

passes_as_nobody : require (authorization backend) users_read true nobody 7 ≡ (anonymous, 7)
unfolding opened
passes_as_nobody = refl

has-user_scopes_example :
    has (user_scopes true kind_session) users_read
    ≡ gives_or_zero true kind_session (lookup users_read definitions)
has-user_scopes_example = has-user_scopes true kind_session users_read

user_reads_account : has (user_scopes false kind_api_key) account_read ≡ true
unfolding opened
user_reads_account = refl

grantable_to-user_scopes_test : grantable_to account_read kind_api_key ≡ true
grantable_to-user_scopes_test =
    grantable_to-user_scopes false kind_api_key account_read user_reads_account

grantable_to-oauth_client_test : grantable_to users_read kind_oauth_client ≡ false
grantable_to-oauth_client_test = grantable_to-oauth_client users_read

grantable_to-session_only_test :
    (grantable_to account_session kind_api_key ≡ false)
    × (grantable_to account_session kind_oauth_user ≡ false)
grantable_to-session_only_test = grantable_to-session_only account_session refl

has-restrict_unverified_test :
    (has (restrict_unverified ann_session).scopes account_read
      ≡ (has ann_session.scopes account_read && has unverified_scopes account_read))
    × (has (restrict_unverified ann_session).withheld_until_verified account_read
        ≡ (has ann_session.scopes account_read && not (has unverified_scopes account_read)))
has-restrict_unverified_test = has-restrict_unverified ann_session account_read

require-authorized_iff_example :
    (require (authorization backend) account_read false by_key 7 ≡ (authorized ann_key, 8)) ↔ (
      Resolves account_read by_key ann_key (authorization backend) 7 8
      × (has ann_key.scopes account_read ≡ true))
require-authorized_iff_example =
    require-authorized_iff (authorization backend) account_read false by_key 7 8 ann_key

key-Resolves : Resolves users_read by_key ann_key (authorization backend) 7 8
unfolding opened
key-Resolves = later (absent refl) (found {a = api_key_authenticator backend} refl refl refl)

key_lacks : has ann_key.scopes users_read ≡ false
unfolding opened
key_lacks = refl

require-rejected_test : require (authorization backend) users_read true by_key 7 ≡ (
  rejected (
      if has ann_key.withheld_until_verified users_read
      then email_verification_required
      else missing_scope users_read),
  8,
)
require-rejected_test =
    require-rejected (authorization backend) users_read true by_key 7 8 ann_key key-Resolves
      key_lacks

require-anonymous_iff_test :
    (require (authorization backend) users_read true nobody 7 ≡ (anonymous, 7))
    ↔ (◌≡◌ {A = Bool} true true × Exhausts users_read nobody (authorization backend) 7 7)
require-anonymous_iff_test =
    require-anonymous_iff (authorization backend) users_read true nobody 7 7

require-Entitles_example :
    (u : User) × Loaded backend by_session u ann_session
    × Entitles backend u ann_session account_session
require-Entitles_example =
    require-Entitles backend account_session false by_session 7 7 ann_session passes_by_session

session_only_needs_token_test : session_token by_session ≢ ""
session_only_needs_token_test =
    session_only_needs_token backend account_session false by_session 7 7 ann_session refl
      passes_by_session
