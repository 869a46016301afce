-- ===== src/Outbound/Policy.antt =====
-- backend/internal/outbound/policy.go: an allowlist, and the hosts and addresses that it admits.
-- Addresses `A` and ranges `P` are those of net/netip, whose functions are `Netip`.
pub mod Explained
use pocket_id.Prelude.{
  Bool, true, false, not, ◌&&◌, ◌||◌, Option, none, some, List, [], ◌∷◌, ◌++◌, map, if◌then◌else◌,
}
use pocket_id.AppError.{Error, plain}
use pocket_id.Result.{Result, ok, err}
use pocket_id.CallbackUrl.Bytes.{Bytes, bytes, eq_bytes}
use pocket_id.Oidc.Scopes.{has_text}
use pocket_id.Outbound.Text.{
  trim_space, to_lower, split_commas, has_suffix, normalize_hostname, is_valid_hostname, has_slash,
  cut_wildcard,
}

pub record Netip (A P : Type 0) : Type 0 where
  -- ParsePrefix and ParseAddr, none for an error, and MustParsePrefix
  pub parse_prefix : Bytes → Option P
  pub parse_addr : Bytes → Option A
  pub must_parse_prefix : Bytes → P
  pub masked : P → P
  -- `PrefixFrom(addr, addr.BitLen())`
  pub single : A → P
  pub contains : P → A → Bool
  pub unmap : A → A
  -- `WithZone("")`
  pub without_zone : A → A
  pub is_valid : A → Bool
  pub is_loopback : A → Bool
  pub is_private : A → Bool
  pub is_unspecified : A → Bool
  pub is_link_local_unicast : A → Bool
  pub is_link_local_multicast : A → Bool
  pub is_interface_local_multicast : A → Bool
  pub is_multicast : A → Bool
  -- Is6 and Is4In6 of the range's address
  pub is_6 : P → Bool
  pub is_4in6 : P → Bool

pub record Policy (P : Type 0) : Type 0 where
  pub local_ipv6 : List P
  pub allowed_prefixes : List P
  pub allowed_hosts : List Bytes
  pub allowed_host_suffixes : List Bytes

-- the errors without the entry that they name
abbrev pub invalid_range : Error
invalid_range = plain "not a valid CIDR range"

abbrev pub invalid_pattern : Error
invalid_pattern = plain "not a valid hostname pattern"

abbrev pub invalid_entry : Error
invalid_entry = plain "not a valid keyword, IP address, CIDR range or hostname"

abbrev pub invalid_ipv6_range : Error
invalid_ipv6_range = plain "not a valid IPv6 range"

abbrev pub private_ranges : List Bytes
private_ranges =
    bytes "10.0.0.0/8"
    ∷ bytes "172.16.0.0/12"
    ∷ bytes "192.168.0.0/16"
    ∷ bytes "100.64.0.0/10"
    ∷ bytes "fc00::/7"
    ∷ []

abbrev pub loopback_ranges : List Bytes
loopback_ranges = bytes "127.0.0.0/8" ∷ bytes "::1/128" ∷ []

abbrev pub special_use_ranges : List Bytes
special_use_ranges =
    bytes "0.0.0.0/8"
    ∷ bytes "100.64.0.0/10"
    ∷ bytes "192.0.0.0/24"
    ∷ bytes "192.0.2.0/24"
    ∷ bytes "192.31.196.0/24"
    ∷ bytes "192.52.193.0/24"
    ∷ bytes "192.88.99.0/24"
    ∷ bytes "192.175.48.0/24"
    ∷ bytes "198.18.0.0/15"
    ∷ bytes "198.51.100.0/24"
    ∷ bytes "203.0.113.0/24"
    ∷ bytes "224.0.0.0/4"
    ∷ bytes "240.0.0.0/4"
    ∷ bytes "64:ff9b::/96"
    ∷ bytes "64:ff9b:1::/48"
    ∷ bytes "100::/64"
    ∷ bytes "100:0:0:1::/64"
    ∷ bytes "2001::/23"
    ∷ bytes "2001:db8::/32"
    ∷ bytes "2002::/16"
    ∷ bytes "2620:4f:8000::/48"
    ∷ bytes "3fff::/20"
    ∷ bytes "5f00::/16"
    ∷ bytes "fec0::/10"
    ∷ bytes "ff00::/8"
    ∷ []

abbrev pub empty_policy : {P : Type 0} → List P → Policy P
empty_policy local = record {
  local_ipv6 = local;
  allowed_prefixes = [];
  allowed_hosts = [];
  allowed_host_suffixes = [];
}

-- the entries of an allowlist, in lower case and without the blanks around them
unfoldable pub entries_of : Bytes → List Bytes
unfolding split_commas to_lower trim_space
entries_of value = map (λ entry. to_lower (trim_space entry)) (split_commas value)

module _ {A P : Type 0} (netip : Netip A P) where
  -- `mustParsePrefixes`
  abbrev pub must_parse_prefixes : List Bytes → List P
  must_parse_prefixes ranges = map netip.must_parse_prefix ranges

  abbrev pub private_prefixes : List P
  private_prefixes = must_parse_prefixes private_ranges

  abbrev pub loopback_prefixes : List P
  loopback_prefixes = must_parse_prefixes loopback_ranges

  abbrev pub special_use_prefixes : List P
  special_use_prefixes = must_parse_prefixes special_use_ranges

  abbrev pub with_range : Policy P → Option P → Result (Policy P)
  with_range p none = err invalid_range
  with_range p (some range) =
      ok (record p { allowed_prefixes = p.allowed_prefixes ++ (netip.masked range ∷ []) })

  abbrev pub with_host : Policy P → Bytes → Option Bytes → Result (Policy P)
  with_host p entry (some suffix) =
      if not (is_valid_hostname suffix)
      then err invalid_pattern
      else ok (record p { allowed_host_suffixes = p.allowed_host_suffixes ++ ((46 ∷ suffix) ∷ []) })
  with_host p entry none =
      if not (is_valid_hostname entry)
      then err invalid_entry
      else ok (record p { allowed_hosts = p.allowed_hosts ++ (entry ∷ []) })

  abbrev pub with_addr : Policy P → Bytes → Option A → Result (Policy P)
  with_addr p entry (some addr) =
      ok (record p {
        allowed_prefixes = p.allowed_prefixes ++ (netip.single (netip.unmap addr) ∷ []);
      })
  with_addr p entry none = with_host p entry (cut_wildcard entry)

  unfoldable pub with_entry : Policy P → Bytes → Result (Policy P)
  with_entry p entry =
      if eq_bytes entry (bytes "none")
      then ok p
      else if eq_bytes entry (bytes "private")
      then ok
          (record p { allowed_prefixes = (p.allowed_prefixes ++ private_prefixes) ++ p.local_ipv6 })
      else if eq_bytes entry (bytes "loopback")
      then ok (record p { allowed_prefixes = p.allowed_prefixes ++ loopback_prefixes })
      else if has_slash entry
      then with_range p (netip.parse_prefix entry)
      else with_addr p entry (netip.parse_addr entry)

  -- the loop of `ParsePolicy`, over the entries in lower case without their blanks
  unfoldable pub with_entries : Policy P → List Bytes → Result (Policy P)
  with_entries p [] = ok p
  with_entries p (entry ∷ entries) = elim (if eq_bytes entry [] then ok p else with_entry p entry) [
    | ok p' ↦ with_entries p' entries
    | err e ↦ err e
  ]

  unfoldable pub parse_policy : Bytes → List P → Result (Policy P)
  unfolding entries_of with_entries
  parse_policy value local = with_entries (empty_policy local) (entries_of value)

  -- the loops over ranges
  abbrev pub contains_any : List P → A → Bool
  contains_any [] addr = false
  contains_any (p ∷ ps) addr = netip.contains p addr || contains_any ps addr

  unfoldable pub is_blocked : Policy P → A → Bool
  is_blocked p addr =
      (netip.is_loopback addr
        || (netip.is_private addr
            || (netip.is_unspecified addr
                || (netip.is_link_local_unicast addr
                    || (netip.is_link_local_multicast addr
                        || (netip.is_interface_local_multicast addr || netip.is_multicast addr))))))
      || (contains_any special_use_prefixes addr || contains_any p.local_ipv6 addr)

  abbrev pub canonical : A → A
  canonical addr = netip.unmap (netip.without_zone addr)

  unfoldable pub allow_addr : Policy P → A → Bool
  unfolding is_blocked
  allow_addr p addr =
      if not (netip.is_valid (canonical addr))
      then false
      else if not (is_blocked p (canonical addr))
      then true
      else contains_any p.allowed_prefixes (canonical addr)

  abbrev pub any_suffix : List Bytes → Bytes → Bool
  any_suffix [] host = false
  any_suffix (s ∷ ss) host = has_suffix host s || any_suffix ss host

  -- `AllowURL`, for the URL's host name
  unfoldable pub allow_url : Policy P → Bytes → Bool
  unfolding normalize_hostname
  allow_url p hostname =
      if eq_bytes (normalize_hostname hostname) []
      then false
      else if has_text p.allowed_hosts (normalize_hostname hostname)
      then true
      else any_suffix p.allowed_host_suffixes (normalize_hostname hostname)

  -- the loop of `ParseLocalIPv6Ranges`
  abbrev pub with_local : Option P → Result (List P) → Result (List P)
  with_local none rest = err invalid_range
  with_local (some p) rest =
      if not (netip.is_6 p) || netip.is_4in6 p
      then err invalid_ipv6_range
      else elim rest [ ok ps ↦ ok (netip.masked p ∷ ps) | err e ↦ err e ]

  unfoldable pub local_ranges : List Bytes → Result (List P)
  local_ranges [] = ok []
  local_ranges (entry ∷ entries) =
      let rest = local_ranges entries in
      if eq_bytes entry [] then rest else with_local (netip.parse_prefix entry) rest

  unfoldable pub parse_local_ipv6_ranges : Bytes → Result (List P)
  unfolding local_ranges split_commas trim_space
  parse_local_ipv6_ranges value = local_ranges (map trim_space (split_commas value))
