-- ===== src/Outbound/Requests/Reached.antt =====
-- Where a request of the server goes (`RoundTrip` in backend/internal/outbound/transport.go, with the
-- policies of `New` in clients.go).
use pocket_id.Prelude.{
  Bool, true, false, not, ◌&&◌, ◌||◌, Option, none, some, List, [], ◌∷◌, ◌++◌, ◌≡◌, ◌⊎◌, inl, inr,
  refl, sym, ◌∙◌, ap, subst, arith, Bool-cases, if◌then◌else◌,
}
use pocket_id.Result.{Result, ok, err}
use pocket_id.CallbackUrl.Bytes.{Bytes, bytes, eq_bytes, eq_bytes_iff}
use pocket_id.Oidc.Scopes.{has_text, has_text-append}
use pocket_id.Outbound.Text.{normalize_hostname}
use pocket_id.Outbound.Policy.{
  Netip, Policy, entries_of, parse_policy, is_blocked, canonical, allow_addr, allow_url,
  parse_local_ipv6_ranges,
}
use pocket_id.Outbound.Policy.Explained.{
  OpensHost, Explained, parse_policy-Explained, AddrAllowed, allow_addr-AddrAllowed,
  allow_url-OpensHost,
}
use pocket_id.Outbound.Requests.{
  Purpose, client_logo, client_metadata, scim, backchannel_logout, federated_jwks, ldap_picture,
  Purpose-discrete, all_purposes, Config, allowlist, with_icon_host, with_icon_library,
  has_trusted_hosts, transport, finished, policy_for, put, policies_for, with_local_ranges,
  new_clients, control, round_trip,
}

module _ {A P : Type 0} (netip : Netip A P) where
  -- why a request is let through: its host is an entry's, or the icon library's for a logo, or the
  -- address that is dialed is public, or an entry's
  pub data Reached (config : Config) (local : List P) (purpose : Purpose) (hostname : Bytes)
      (dialed : Option A) : Type 0 where
    trusted_host :
        (entry : Bytes)
        → has_text (entries_of (allowlist purpose config)) entry ≡ true
        → OpensHost entry (normalize_hostname hostname)
        → Reached config local purpose hostname dialed
    icon_library :
        (host : Bytes)
        → purpose ≡ client_logo
        → config.icon_library_enabled ≡ true
        → config.icon_library_hostname ≡ some host
        → normalize_hostname hostname ≡ normalize_hostname host
        → Reached config local purpose hostname dialed
    allowed_addr :
        (addr : A) (p : Policy P)
        → dialed ≡ some addr
        → p.local_ipv6 ≡ local
        → netip.is_valid (canonical netip addr) ≡ true
        → AddrAllowed netip local (entries_of (allowlist purpose config)) p (canonical netip addr)
        → Reached config local purpose hostname dialed

  -- what a policy with the host of the icon library admits
  data Wider (config : Config) (purpose : Purpose) (p q : Policy P) : Type 0 where
    wider :
        q.local_ipv6 ≡ p.local_ipv6
        → q.allowed_prefixes ≡ p.allowed_prefixes
        → ((hostname : Bytes)
            → allow_url netip q hostname ≡ true
            → (allow_url netip p hostname ≡ true)
              ⊎ ((host : Bytes) × (purpose ≡ client_logo)
                  × (config.icon_library_enabled ≡ true)
                  × (config.icon_library_hostname ≡ some host)
                  × (normalize_hostname hostname ≡ normalize_hostname host)))
        → Wider config purpose p q

  allow_url-snoc :
      (p : Policy P) (name hostname : Bytes)
      → allow_url netip (record p { allowed_hosts = p.allowed_hosts ++ (name ∷ []) }) hostname
        ≡ true
      → (allow_url netip p hostname ≡ true) ⊎ (normalize_hostname hostname ≡ name)
  unfolding allow_url
  allow_url-snoc p name hostname h = elim (Bool-cases (eq_bytes (normalize_hostname hostname) [])) [
    | inl blank ↦ let h' = rw blank at h in cc
    | inr full ↦ elim (Bool-cases (eq_bytes name (normalize_hostname hostname))) [
      | inl same ↦ inr (sym ((eq_bytes_iff name (normalize_hostname hostname)).0 same))
      | inr other ↦ inl (
          rw full (
            ground
              (arith, has_text-append p.allowed_hosts (name ∷ []) (normalize_hostname hostname))))
    ]
  ]

  with_icon_library-Wider :
      (config : Config) (purpose : Purpose) (p : Policy P)
      → Wider config purpose p (with_icon_library purpose config p)
  unfolding with_icon_library
  with_icon_library-Wider config client_logo p =
      go config.icon_library_enabled config.icon_library_hostname refl refl
    where
      go :
          (enabled : Bool) (host : Option Bytes)
          → config.icon_library_enabled ≡ enabled
          → config.icon_library_hostname ≡ host
          → Wider config client_logo p (if enabled then with_icon_host host p else p)
      go false host on e = wider refl refl (λ hostname h. inl h)
      go true none on e = wider refl refl (λ hostname h. inl h)
      go true (some host) on e = wider refl refl (λ hostname h.
          elim (allow_url-snoc p (normalize_hostname host) hostname h) [
            | inl old ↦ inl old
            | inr same ↦ inr (host, refl, on, e, same)
          ])
  with_icon_library-Wider config client_metadata p = wider refl refl (λ hostname h. inl h)
  with_icon_library-Wider config scim p = wider refl refl (λ hostname h. inl h)
  with_icon_library-Wider config backchannel_logout p = wider refl refl (λ hostname h. inl h)
  with_icon_library-Wider config federated_jwks p = wider refl refl (λ hostname h. inl h)
  with_icon_library-Wider config ldap_picture p = wider refl refl (λ hostname h. inl h)

  -- a policy of `New`
  data Made (config : Config) (local : List P) (purpose : Purpose) (q : Policy P) : Type 0 where
    made :
        (p : Policy P)
        → parse_policy netip (allowlist purpose config) local ≡ ok p
        → Wider config purpose p q
        → Made config local purpose q

  policy_for-Made :
      (config : Config) (local : List P) (purpose : Purpose) (q : Policy P)
      → policy_for netip config local purpose ≡ ok q
      → Made config local purpose q
  unfolding policy_for
  policy_for-Made config local purpose q h =
      go (parse_policy netip (allowlist purpose config) local) refl h
    where
      go :
          (r : Result (Policy P))
          → parse_policy netip (allowlist purpose config) local ≡ r
          → finished netip purpose config r ≡ ok q
          → Made config local purpose q
      go (err e) s k = cc
      go (ok p) s k =
          let same : with_icon_library purpose config p ≡ q = cc in
          made p s (subst (Wider config purpose p) same (with_icon_library-Wider config purpose p))

  transport-Made :
      (config : Config) (local : List P) (purpose : Purpose) (purposes : List Purpose)
      (clients : List (Purpose × Policy P)) (q : Policy P)
      → policies_for netip config local purposes ≡ ok clients
      → transport purpose clients ≡ some q
      → Made config local purpose q
  unfolding policies_for transport
  transport-Made config local purpose [] clients q h k =
      let same : clients ≡ [] = cc in let k' = rw same at k in cc
  transport-Made config local purpose (x ∷ xs) clients q h k =
      go (policy_for netip config local x) (policies_for netip config local xs) refl refl h
        (λ later. transport-Made config local purpose xs later q)
    where
      found :
          (p : Policy P) (later : List (Purpose × Policy P))
          → policy_for netip config local x ≡ ok p
          → transport purpose ((x, p) ∷ later) ≡ some q
          → (transport purpose later ≡ some q → Made config local purpose q)
          → Made config local purpose q
      found p later s t rest =
          elim (Purpose-discrete x purpose)
              as (λ d.
                ◌≡◌ {A = Option (Policy P)}
                  (elim d [ yes e ↦ some p | no e ↦ transport purpose later ]) (some q)
                → Made config local purpose q) [
                  | yes e ↦ λ u.
                      subst (λ y. Made config local y q) e
                        (policy_for-Made config local x q (s ∙ ap ok (cc)))
                  | no e ↦ λ u. rest u
                ]
            t

      go :
          (r : Result (Policy P)) (rs : Result (List (Purpose × Policy P)))
          → policy_for netip config local x ≡ r
          → policies_for netip config local xs ≡ rs
          → put netip x r rs ≡ ok clients
          → ((later : List (Purpose × Policy P))
              → policies_for netip config local xs ≡ ok later
              → transport purpose later ≡ some q
              → Made config local purpose q)
          → Made config local purpose q
      go (err e) rs s t u rest = cc
      go (ok p) (err e) s t u rest = cc
      go (ok p) (ok later) s t u rest =
          let same : clients ≡ (x, p) ∷ later = cc in
          found p later s (subst (λ cs. transport purpose cs ≡ some q) same k) (rest later t)

  control-allowed :
      (q : Policy P) (dialed : Option A)
      → control netip q dialed ≡ ok tt
      → (a : A) × (dialed ≡ some a) × (allow_addr netip q a ≡ true)
  unfolding control
  control-allowed q none h = cc
  control-allowed q (some a) h = elim (Bool-cases (allow_addr netip q a)) [
    | inl on ↦ (a, refl, on)
    | inr off ↦ let h' = rw off at h in cc
  ]

  round_trip-split :
      (q : Policy P) (scheme hostname : Bytes) (dialed : Option A)
      → round_trip netip q scheme hostname dialed ≡ ok tt
      → ((eq_bytes scheme (bytes "http") || eq_bytes scheme (bytes "https")) ≡ true)
        × ((allow_url netip q hostname ≡ true) ⊎ (control netip q dialed ≡ ok tt))
  unfolding round_trip
  round_trip-split q scheme hostname dialed h =
      elim (Bool-cases
        (not (eq_bytes scheme (bytes "http")) && not (eq_bytes scheme (bytes "https")))) [
          | inl bad ↦ let h' = rw bad at h in cc
          | inr good ↦ elim (Bool-cases (has_trusted_hosts q && allow_url netip q hostname)) [
            | inl trusted ↦ (ground arith, inl (ground arith))
            | inr guarded ↦ (ground arith, inr (rw (good, guarded) at h))
          ]
        ]

  allow_addr-same :
      (p q : Policy P) (a : A)
      → q.local_ipv6 ≡ p.local_ipv6
      → q.allowed_prefixes ≡ p.allowed_prefixes
      → allow_addr netip q a ≡ true
      → allow_addr netip p a ≡ true
  unfolding allow_addr is_blocked
  allow_addr-same p q a l s h = rw (← l, ← s) h

  local-kept :
      (entries : List Bytes) (local : List P) (p : Policy P)
      → Explained netip local entries p
      → p.local_ipv6 ≡ local
  local-kept entries local p (Explained.explained same addrs hosts suffixes) = same

  Made-Reached :
      (config : Config) (local : List P) (purpose : Purpose) (q : Policy P) (hostname : Bytes)
      (dialed : Option A)
      → Made config local purpose q
      → (allow_url netip q hostname ≡ true) ⊎ (control netip q dialed ≡ ok tt)
      → Reached config local purpose hostname dialed
  Made-Reached config local purpose q hostname dialed (made p parsed (wider l s urls))
        (inl trusted) =
      let x = parse_policy-Explained netip local (allowlist purpose config) p parsed in
      elim (urls hostname trusted) [
        | inl old ↦
            let (e, listed, opens) =
              allow_url-OpensHost netip local (entries_of (allowlist purpose config)) p hostname x
                old in
            trusted_host e listed opens
        | inr (host, logo, on, is, same) ↦ icon_library host logo on is same
      ]
  Made-Reached config local purpose q hostname dialed (made p parsed (wider l s urls)) (inr dial) =
      let x = parse_policy-Explained netip local (allowlist purpose config) p parsed in
      let (a, is, allowed) = control-allowed q dialed dial in
      let (valid, why) =
        allow_addr-AddrAllowed netip local (entries_of (allowlist purpose config)) p a x
          (allow_addr-same p q a l s allowed) in
      allowed_addr a p is (local-kept (entries_of (allowlist purpose config)) local p x) valid why

  -- A request that a transport of `New` lets through is one of HTTP or HTTPS, to a host that an entry of
  -- the purpose's allowlist names or that is the icon library's, or to an address that is public or
  -- that an entry opens; `private` opens the local IPv6 ranges too.
  pub round_trip-Reached :
      (config : Config) (clients : List (Purpose × Policy P)) (purpose : Purpose) (q : Policy P)
      (scheme hostname : Bytes) (dialed : Option A)
      → new_clients netip config ≡ ok clients
      → transport purpose clients ≡ some q
      → round_trip netip q scheme hostname dialed ≡ ok tt
      → ((eq_bytes scheme (bytes "http") || eq_bytes scheme (bytes "https")) ≡ true)
        × ((local : List P) × (parse_local_ipv6_ranges netip config.local_ipv6_ranges ≡ ok local)
            × Reached config local purpose hostname dialed)
  unfolding new_clients
  round_trip-Reached config clients purpose q scheme hostname dialed built mine sent =
      let (web, way) = round_trip-split q scheme hostname dialed sent in
      (web, go (parse_local_ipv6_ranges netip config.local_ipv6_ranges) refl built way)
    where
      go :
          (r : Result (List P))
          → parse_local_ipv6_ranges netip config.local_ipv6_ranges ≡ r
          → with_local_ranges netip config r ≡ ok clients
          → (allow_url netip q hostname ≡ true) ⊎ (control netip q dialed ≡ ok tt)
          → (local : List P) × (parse_local_ipv6_ranges netip config.local_ipv6_ranges ≡ ok local)
            × Reached config local purpose hostname dialed
      go (err e) s h way = cc
      go (ok local) s h way = (
        local,
        s,
        Made-Reached config local purpose q hostname dialed
            (transport-Made config local purpose all_purposes clients q h mine) way,
      )
