-- ===== src/Authz/Authenticators.antt =====
-- backend/internal/middleware/authenticator.go and backend/internal/emailverification/pending.go.
-- The JWT service, the user service, the API key module and the configuration are other components:
-- here they are the operations of `Backend`, over a state `W` that they may change.
pub mod Sessions
use Prim.Native.Char.{code}
use pocket_id.Prelude.{
  ℕ, String, Bool, true, false, not, ◌&&◌, Option, none, some, List, [], ◌∷◌, ◌==◌, eqb,
  if◌then◌else◌,
}
use pocket_id.AppError.{Error, not_signed_in, user_disabled, token_invalid}
use pocket_id.Result.{Result, ok, err}
use pocket_id.Authz.Scope.{kind_session, kind_api_key, user_scopes}
use pocket_id.Authz.Principal.{Principal, restrict_unverified}
use pocket_id.Authz.Middleware.{Authenticator}

-- model.User, the fields that the authenticators read
pub record User : Type 0 where
  pub id : String
  pub email : Option String
  pub email_verified : Bool
  pub is_admin : Bool
  pub disabled : Bool

-- a verified access token, with the answers of its accessors
pub record Token : Type 0 where
  pub authentication_method : Result String
  pub issued_at : ℕ
  pub subject : Option String

-- the headers and the cookie that the authenticators read; an absent header reads as ""
pub record Request : Type 0 where
  pub access_token_cookie : Option String
  pub authorization_header : String
  pub api_key_header : String

pub record Backend (W : Type 0) : Type 0 where
  pub verify_access_token : String → W → Result Token
  pub get_user : String → W → Result User × W
  pub validate_api_key : String → W → Result User × W
  -- the value of the setting `EmailVerification`
  pub get_config : W → Result String × W

abbrev pub email_verification_setting : String
email_verification_setting = "required"

-- `CanBePending`, `IsPending`
unfoldable pub can_be_pending : User → Bool
can_be_pending u = not u.is_admin && not u.email_verified

unfoldable pub is_pending : String → User → Bool
unfolding can_be_pending
is_pending setting u = setting == email_verification_setting && can_be_pending u

-- `_, after, _ := strings.Cut(s, " ")`
unfoldable pub after_space : String → String
after_space String.[] = ""
after_space (String.◌∷◌ c s) = if eqb (code c) 32 then s else after_space s

unfoldable pub session_token : Request → String
unfolding after_space
session_token c = elim c.access_token_cookie [
  | some token ↦ token
  | none ↦ after_space c.authorization_header
]

module _ {W : Type 0} (backend : Backend W) where
  unfoldable pub restrict_with : Result String × W → User → Principal → Result Principal × W
  restrict_with (err e, w) u p = (err e, w)
  restrict_with (ok setting, w) u p =
      (ok (if is_pending setting u then restrict_unverified p else p), w)

  -- `restrictUnverified`
  unfoldable pub with_restriction : User → Principal → W → Result Principal × W
  unfolding restrict_with
  with_restriction u p w =
      if can_be_pending u then restrict_with (backend.get_config w) u p else (ok p, w)

  -- after the user is loaded, for either credential
  unfoldable pub admit : (User → Principal) → Result User × W → Result Principal × W
  admit principal (err e, w) = (err not_signed_in, w)
  admit principal (ok u, w) =
      if u.disabled then (err user_disabled, w) else with_restriction u (principal u) w

  abbrev pub session_principal : String → ℕ → User → Principal
  session_principal method time u = record {
    kind = kind_session;
    user_id = u.id;
    scopes = user_scopes u.is_admin kind_session;
    withheld_until_verified = [];
    authentication_method = method;
    authentication_time = time;
  }

  abbrev pub api_key_principal : User → Principal
  api_key_principal u = record {
    kind = kind_api_key;
    user_id = u.id;
    scopes = user_scopes u.is_admin kind_api_key;
    withheld_until_verified = [];
    authentication_method = "";
    authentication_time = 0;
  }

  -- `SessionAuthenticator.Authenticate`, after the signature is verified
  unfoldable pub authenticate_token : Result Token → W → Result Principal × W
  authenticate_token (err e) w = (err not_signed_in, w)
  authenticate_token (ok token) w = elim token.authentication_method [
    | err e ↦ (err not_signed_in, w)
    | ok method ↦ elim token.subject [
      | none ↦ (err token_invalid, w)
      | some subject ↦ admit (session_principal method token.issued_at) (backend.get_user subject w)
    ]
  ]

  unfoldable pub session_authenticator : Authenticator Request W
  session_authenticator = record {
    kind = kind_session;
    present = λ c. not (session_token c == "");
    authenticate = λ c w. authenticate_token (backend.verify_access_token (session_token c) w) w;
  }

  unfoldable pub api_key_authenticator : Authenticator Request W
  api_key_authenticator = record {
    kind = kind_api_key;
    present = λ c. not (c.api_key_header == "");
    authenticate = λ c w. admit api_key_principal (backend.validate_api_key c.api_key_header w);
  }

  -- `NewAuthorization`: a session is tried before an API key
  abbrev pub authorization : List (Authenticator Request W)
  authorization = session_authenticator ∷ api_key_authenticator ∷ []
