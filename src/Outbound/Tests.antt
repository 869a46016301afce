-- ===== src/Outbound/Tests.antt =====
-- The theorem on backend/internal/outbound at a concrete request. Addresses are numbers, and ranges
-- their intervals; the numbers below 100 are private.
use pocket_id.Prelude.{
  ℕ, true, false, ◌&&◌, ◌||◌, none, some, List, [], ◌∷◌, ◌≡◌, refl, all, leb, ltb, if◌then◌else◌,
}
use pocket_id.Result.{ok}
use pocket_id.CallbackUrl.Bytes.{bytes, eq_bytes, is_digit, value_from}
use pocket_id.Outbound.Text.{
  trim_left, trim_right, trim_space, to_lower, split_commas, has_suffix, trim_dot,
  normalize_hostname, has_double_dot, is_valid_hostname,
}
use pocket_id.Outbound.Policy.{
  Netip, Policy, with_entry, with_entries, entries_of, parse_policy, is_blocked, allow_addr,
  allow_url, local_ranges, parse_local_ipv6_ranges,
}
use pocket_id.Outbound.Requests.{
  Purpose, client_logo, client_metadata, scim, backchannel_logout, federated_jwks, ldap_picture,
  Purpose-discrete, Config, allowlist, with_icon_library, has_trusted_hosts, transport, policy_for,
  policies_for, new_clients, control, round_trip,
}
use pocket_id.Outbound.Requests.Reached.{Reached, round_trip-Reached}

abbrev numbers : Netip ℕ (ℕ × ℕ)
numbers = record {
  parse_prefix = λ s. none;
  parse_addr = λ s. if all is_digit s then some (value_from 0 s) else none;
  must_parse_prefix = λ s. (1, 0);
  masked = λ p. p;
  single = λ a. (a, a);
  contains = λ p a. leb p.0 a && leb a p.1;
  unmap = λ a. a;
  without_zone = λ a. a;
  is_valid = λ a. true;
  is_loopback = λ a. false;
  is_private = λ a. ltb a 100;
  is_unspecified = λ a. false;
  is_link_local_unicast = λ a. false;
  is_link_local_multicast = λ a. false;
  is_interface_local_multicast = λ a. false;
  is_multicast = λ a. false;
  is_6 = λ p. true;
  is_4in6 = λ p. false;
}

abbrev config : Config
config = record {
  local_ipv6_ranges = [];
  hosts_client_logo = [];
  hosts_client_metadata = bytes "none";
  hosts_scim = bytes "*.Example.com, 7";
  hosts_backchannel_logout = [];
  hosts_federated_jwks = [];
  hosts_ldap_picture = [];
  icon_library_enabled = true;
  icon_library_hostname = some (bytes "icons.lan");
}

abbrev closed : Policy (ℕ × ℕ)
closed = record {
  local_ipv6 = [];
  allowed_prefixes = [];
  allowed_hosts = [];
  allowed_host_suffixes = [];
}

abbrev scim_policy : Policy (ℕ × ℕ)
scim_policy = record closed {
  allowed_prefixes = (7, 7) ∷ [];
  allowed_host_suffixes = bytes ".example.com" ∷ [];
}

abbrev clients : List (Purpose × Policy (ℕ × ℕ))
clients =
    (client_logo, record closed { allowed_hosts = bytes "icons.lan" ∷ [] })
    ∷ (client_metadata, closed)
    ∷ (scim, scim_policy)
    ∷ (backchannel_logout, closed)
    ∷ (federated_jwks, closed)
    ∷ (ldap_picture, closed)
    ∷ []

building : new_clients numbers config ≡ ok clients
unfolding new_clients policies_for policy_for with_icon_library allowlist parse_policy with_entries
    with_entry entries_of local_ranges parse_local_ipv6_ranges split_commas trim_space trim_left
    trim_right to_lower is_valid_hostname has_double_dot normalize_hostname trim_dot value_from
building = refl

choosing : transport scim clients ≡ some scim_policy
unfolding transport Purpose-discrete
choosing = refl

sending : round_trip numbers scim_policy (bytes "https") (bytes "scim.lan") (some 7) ≡ ok tt
unfolding round_trip has_trusted_hosts allow_url control allow_addr is_blocked normalize_hostname
    to_lower trim_dot has_suffix
sending = refl

round_trip-Reached_example :
    ((eq_bytes (bytes "https") (bytes "http") || eq_bytes (bytes "https") (bytes "https")) ≡ true)
    × ((local : List (ℕ × ℕ)) × (parse_local_ipv6_ranges numbers [] ≡ ok local)
        × Reached numbers config local scim (bytes "scim.lan") (some 7))
round_trip-Reached_example =
    round_trip-Reached numbers config clients scim scim_policy (bytes "https") (bytes "scim.lan")
      (some 7) building choosing sending
