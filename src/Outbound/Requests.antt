-- ===== src/Outbound/Requests.antt =====
-- backend/internal/outbound/clients.go and transport.go: the policy of each purpose, and which requests
-- it lets through. A URL is known by its scheme and its host name, and a dialed address as
-- netip.ParseAddrPort reads it, none where it does not. The transports themselves are net/http's.
pub mod Reached
use pocket_id.Prelude.{
  String, Bool, true, false, not, ◌&&◌, ◌||◌, Option, none, some, List, [], ◌∷◌, ◌++◌,
  if◌then◌else◌,
}
use pocket_id.AppError.{Error, plain, wrapped}
use pocket_id.Result.{Result, ok, err}
use pocket_id.CallbackUrl.Bytes.{Bytes, bytes, eq_bytes}
use pocket_id.Oidc.Resource.{is_empty}
use pocket_id.Outbound.Text.{normalize_hostname}
use pocket_id.Outbound.Policy.{
  Netip, Policy, parse_policy, allow_addr, allow_url, parse_local_ipv6_ranges,
}

pub data Purpose : Type 0 where
  client_logo client_metadata scim backchannel_logout federated_jwks ldap_picture : Purpose

unfoldable pub Purpose-discrete : Discrete Purpose
Purpose-discrete = hlevel

abbrev pub all_purposes : List Purpose
all_purposes =
    client_logo ∷ client_metadata ∷ scim ∷ backchannel_logout ∷ federated_jwks ∷ ldap_picture ∷ []

unfoldable pub env_var : Purpose → String
env_var client_logo = "OUTBOUND_ALLOWED_HOSTS_CLIENT_LOGO"
env_var client_metadata = "OUTBOUND_ALLOWED_HOSTS_CLIENT_METADATA"
env_var scim = "OUTBOUND_ALLOWED_HOSTS_SCIM"
env_var backchannel_logout = "OUTBOUND_ALLOWED_HOSTS_BACKCHANNEL_LOGOUT"
env_var federated_jwks = "OUTBOUND_ALLOWED_HOSTS_FEDERATED_JWKS"
env_var ldap_picture = "OUTBOUND_ALLOWED_HOSTS_LDAP_PICTURE"

-- the settings of common.EnvConfigSchema that `New` reads; of the icon library's URL its host name,
-- none where url.Parse fails or finds none
pub record Config : Type 0 where
  pub local_ipv6_ranges : Bytes
  pub hosts_client_logo : Bytes
  pub hosts_client_metadata : Bytes
  pub hosts_scim : Bytes
  pub hosts_backchannel_logout : Bytes
  pub hosts_federated_jwks : Bytes
  pub hosts_ldap_picture : Bytes
  pub icon_library_enabled : Bool
  pub icon_library_hostname : Option Bytes

unfoldable pub allowlist : Purpose → Config → Bytes
allowlist client_logo config = config.hosts_client_logo
allowlist client_metadata config = config.hosts_client_metadata
allowlist scim config = config.hosts_scim
allowlist backchannel_logout config = config.hosts_backchannel_logout
allowlist federated_jwks config = config.hosts_federated_jwks
allowlist ldap_picture config = config.hosts_ldap_picture

abbrev pub unsupported_scheme : Error
unsupported_scheme = plain "unsupported URL scheme"

abbrev pub unparsed_address : Error
unparsed_address = plain "could not parse dialed address"

-- BlockedError, without the address and the variable that it names
abbrev pub blocked_error : Error
blocked_error = plain "connection is blocked because it is a private or reserved address"

module _ {P : Type 0} where
  abbrev pub with_icon_host : Option Bytes → Policy P → Policy P
  with_icon_host none p = p
  with_icon_host (some host) p = record p {
    allowed_hosts = p.allowed_hosts ++ (normalize_hostname host ∷ []);
  }

  -- the host of the icon library, for the purpose that it serves
  unfoldable pub with_icon_library : Purpose → Config → Policy P → Policy P
  unfolding normalize_hostname
  with_icon_library client_logo config p =
      if config.icon_library_enabled then with_icon_host config.icon_library_hostname p else p
  with_icon_library purpose config p = p

  unfoldable pub has_trusted_hosts : Policy P → Bool
  has_trusted_hosts p = not (is_empty p.allowed_hosts) || not (is_empty p.allowed_host_suffixes)

  -- `Transport`: the policy behind the transport of a purpose
  unfoldable pub transport : Purpose → List (Purpose × Policy P) → Option (Policy P)
  unfolding Purpose-discrete
  transport purpose [] = none
  transport purpose ((q, p) ∷ clients) = elim (Purpose-discrete q purpose) [
    | yes e ↦ some p
    | no e ↦ transport purpose clients
  ]

module _ {A P : Type 0} (netip : Netip A P) where
  abbrev pub finished : Purpose → Config → Result (Policy P) → Result (Policy P)
  finished purpose config (ok p) = ok (with_icon_library purpose config p)
  finished purpose config (err e) = err (wrapped (env_var purpose) e)

  -- a round of the loop of `New`
  unfoldable pub policy_for : Config → List P → Purpose → Result (Policy P)
  unfolding with_icon_library env_var allowlist parse_policy
  policy_for config local purpose =
      finished purpose config (parse_policy netip (allowlist purpose config) local)

  abbrev pub put :
      Purpose
      → Result (Policy P)
      → Result (List (Purpose × Policy P))
      → Result (List (Purpose × Policy P))
  put purpose (err e) rest = err e
  put purpose (ok p) (err e) = err e
  put purpose (ok p) (ok clients) = ok ((purpose, p) ∷ clients)

  unfoldable pub policies_for : Config → List P → List Purpose → Result (List (Purpose × Policy P))
  unfolding policy_for
  policies_for config local [] = ok []
  policies_for config local (purpose ∷ purposes) =
      put purpose (policy_for config local purpose) (policies_for config local purposes)

  abbrev pub with_local_ranges : Config → Result (List P) → Result (List (Purpose × Policy P))
  with_local_ranges config (err e) = err (wrapped "invalid LOCAL_IPV6_RANGES" e)
  with_local_ranges config (ok local) = policies_for config local all_purposes

  -- `New`
  unfoldable pub new_clients : Config → Result (List (Purpose × Policy P))
  unfolding policies_for parse_local_ipv6_ranges
  new_clients config =
      with_local_ranges config (parse_local_ipv6_ranges netip config.local_ipv6_ranges)

  -- the dialer's `Control`
  unfoldable pub control : Policy P → Option A → Result (Unit {0})
  unfolding allow_addr
  control p none = err unparsed_address
  control p (some addr) = if not (allow_addr netip p addr) then err blocked_error else ok tt

  -- `RoundTrip`, up to the connection to the address that the host name resolved to
  unfoldable pub round_trip : Policy P → Bytes → Bytes → Option A → Result (Unit {0})
  unfolding has_trusted_hosts allow_url control
  round_trip p scheme hostname dialed =
      if not (eq_bytes scheme (bytes "http")) && not (eq_bytes scheme (bytes "https"))
      then err unsupported_scheme
      else if has_trusted_hosts p && allow_url netip p hostname
      then ok tt
      else control p dialed
