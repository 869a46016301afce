-- ===== src/Authz/Scope.antt =====
-- backend/internal/authz/scope.go. A `Scope` is a string, a `ScopeSet` a list without an order that
-- matters, and a `PrincipalKind` a number whose bits are flags.
pub mod Grants
use Prim.Native.Nat.{bit_or}
use pocket_id.Prelude.{
  ℕ, String, Bool, true, false, not, ◌&&◌, ◌||◌, Option, none, some, List, [], ◌∷◌, ◌==◌, eqb,
  bit_and, contains, add, lookup, assign, if◌then◌else◌,
}

abbrev pub Scope : Type 0
Scope = String

abbrev pub ScopeSet : Type 0
ScopeSet = List Scope

abbrev pub account_read : Scope
account_read = "account:read"

abbrev pub account_write : Scope
account_write = "account:write"

abbrev pub account_passkeys : Scope
account_passkeys = "account:passkeys"

abbrev pub account_api_keys : Scope
account_api_keys = "account:api-keys"

abbrev pub account_apps : Scope
account_apps = "account:apps"

abbrev pub account_audit_logs : Scope
account_audit_logs = "account:audit-logs"

abbrev pub account_session : Scope
account_session = "account:session"

abbrev pub account_authorize : Scope
account_authorize = "account:authorize"

abbrev pub account_passkeys_enroll : Scope
account_passkeys_enroll = "account:passkeys:enroll"

abbrev pub account_api_keys_create : Scope
account_api_keys_create = "account:api-keys:create"

abbrev pub users_read : Scope
users_read = "users:read"

abbrev pub users_write : Scope
users_write = "users:write"

abbrev pub groups_read : Scope
groups_read = "groups:read"

abbrev pub groups_write : Scope
groups_write = "groups:write"

abbrev pub oidc_clients_read : Scope
oidc_clients_read = "oidc-clients:read"

abbrev pub oidc_clients_write : Scope
oidc_clients_write = "oidc-clients:write"

abbrev pub apis_read : Scope
apis_read = "apis:read"

abbrev pub apis_write : Scope
apis_write = "apis:write"

abbrev pub config_read : Scope
config_read = "config:read"

abbrev pub config_write : Scope
config_write = "config:write"

abbrev pub audit_logs_read : Scope
audit_logs_read = "audit-logs:read"

pub data Category : Type 0 where
  account admin : Category

abbrev pub PrincipalKind : Type 0
PrincipalKind = ℕ

abbrev pub kind_session : PrincipalKind
kind_session = 1

abbrev pub kind_api_key : PrincipalKind
kind_api_key = 2

abbrev pub kind_oauth_user : PrincipalKind
kind_oauth_user = 4

abbrev pub kind_oauth_client : PrincipalKind
kind_oauth_client = 8

abbrev pub delegated : PrincipalKind
delegated = bit_or (bit_or kind_session kind_api_key) kind_oauth_user

pub record Definition : Type 0 where
  pub scope : Scope
  pub category : Category
  pub grantable_to : PrincipalKind

abbrev entry : Scope → Category → PrincipalKind → Definition
entry s c k = record { scope = s; category = c; grantable_to = k }

unfoldable pub catalog : List Definition
catalog =
    entry account_read account delegated
    ∷ entry account_write account delegated
    ∷ entry account_passkeys account delegated
    ∷ entry account_api_keys account delegated
    ∷ entry account_apps account delegated
    ∷ entry account_audit_logs account delegated
    ∷ entry account_session account kind_session
    ∷ entry account_authorize account kind_session
    ∷ entry account_passkeys_enroll account kind_session
    ∷ entry account_api_keys_create account kind_session
    ∷ entry users_read admin delegated
    ∷ entry users_write admin delegated
    ∷ entry groups_read admin delegated
    ∷ entry groups_write admin delegated
    ∷ entry oidc_clients_read admin delegated
    ∷ entry oidc_clients_write admin delegated
    ∷ entry apis_read admin delegated
    ∷ entry apis_write admin delegated
    ∷ entry config_read admin delegated
    ∷ entry config_write admin delegated
    ∷ entry audit_logs_read admin delegated
    ∷ []

-- `index[entry.scope] = entry`, for each entry in turn
index_from : List (Scope × Definition) → List Definition → List (Scope × Definition)
index_from index [] = index
index_from index (e ∷ es) = index_from (assign e.scope e index) es

unfoldable pub index_catalog : List Definition → List (Scope × Definition)
unfolding index_from assign
index_catalog entries = index_from [] entries

unfoldable pub definitions : List (Scope × Definition)
unfolding index_catalog catalog
definitions = index_catalog catalog

abbrev is_some : Option Definition → Bool
is_some none = false
is_some (some d) = true

-- `entry.grantableTo & kind != 0`
abbrev pub may_hold : Definition → PrincipalKind → Bool
may_hold d kind = not (eqb (bit_and d.grantable_to kind) 0)

-- a missing key reads as the zero definition, whose flags are 0
abbrev may_hold_or_zero : Option Definition → PrincipalKind → Bool
may_hold_or_zero none kind = false
may_hold_or_zero (some d) kind = may_hold d kind

unfoldable pub known : Scope → Bool
known s = is_some (lookup s definitions)

unfoldable pub grantable_to : Scope → PrincipalKind → Bool
grantable_to s kind = may_hold_or_zero (lookup s definitions) kind

abbrev pub has : ScopeSet → Scope → Bool
has = contains

new_scope_set_from : ScopeSet → List Scope → ScopeSet
new_scope_set_from set [] = set
new_scope_set_from set (s ∷ ss) = new_scope_set_from (add s set) ss

unfoldable pub new_scope_set : List Scope → ScopeSet
unfolding new_scope_set_from
new_scope_set scopes = new_scope_set_from [] scopes

unfoldable pub unverified_scopes : ScopeSet
unfolding new_scope_set
unverified_scopes = new_scope_set (
    account_read ∷ account_write ∷ account_passkeys ∷ account_passkeys_enroll ∷ account_session
    ∷ [])

abbrev pub is_admin_scope : Definition → Bool
is_admin_scope d = elim d.category [ account ↦ false | admin ↦ true ]

-- one round of the loop of `UserScopes`, with its two `continue`s
unfoldable pub grant : Bool → PrincipalKind → ScopeSet → Definition → ScopeSet
grant is_admin kind set e =
    if eqb (bit_and e.grantable_to kind) 0
    then set
    else if is_admin_scope e && not is_admin
    then set
    else add e.scope set

unfoldable pub scopes_from : Bool → PrincipalKind → ScopeSet → List Definition → ScopeSet
scopes_from is_admin kind set [] = set
scopes_from is_admin kind set (e ∷ es) = scopes_from is_admin kind (grant is_admin kind set e) es

unfoldable pub user_scopes : Bool → PrincipalKind → ScopeSet
user_scopes is_admin kind = scopes_from is_admin kind [] catalog
