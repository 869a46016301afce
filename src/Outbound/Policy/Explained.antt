-- ===== src/Outbound/Policy/Explained.antt =====
-- Whatever a parsed allowlist admits, one of its entries opens (`ParsePolicy` in
-- backend/internal/outbound/policy.go).
use pocket_id.Prelude.{
  true, false, ◌||◌, Option, none, some, List, [], ◌∷◌, ◌++◌, ◌≡◌, inl, inr, refl, sym, subst,
  arith, Bool-cases, if◌then◌else◌,
}
use pocket_id.Result.{Result, ok, err}
use pocket_id.CallbackUrl.Bytes.{Bytes, bytes, eq_bytes, eq_bytes_iff}
use pocket_id.Oidc.Scopes.{has_text, has_text-append, Within}
use pocket_id.Oidc.Resource.Grants.{Within-refl}
use pocket_id.Outbound.Text.{
  has_suffix, normalize_hostname, is_valid_hostname, has_slash, cut_wildcard,
}
use pocket_id.Outbound.Policy.{
  Netip, Policy, empty_policy, private_prefixes, loopback_prefixes, with_range, with_host,
  with_addr, with_entry, with_entries, entries_of, parse_policy, contains_any, canonical,
  is_blocked, allow_addr, any_suffix, allow_url,
}

-- the host is the entry, or ends in the entry without its `*`
pub data OpensHost (entry host : Bytes) : Type 0 where
  exact : host ≡ entry → is_valid_hostname entry ≡ true → OpensHost entry host
  wildcard :
      (suffix : Bytes)
      → entry ≡ 42 ∷ 46 ∷ suffix
      → is_valid_hostname suffix ≡ true
      → has_suffix host (46 ∷ suffix) ≡ true
      → OpensHost entry host

cut_wildcard_lem :
    (entry suffix : Bytes) → cut_wildcard entry ≡ some suffix → entry ≡ 42 ∷ 46 ∷ suffix
cut_wildcard_lem [] suffix h = cc
cut_wildcard_lem (c ∷ []) suffix h = cc
cut_wildcard_lem (c ∷ d ∷ ds) suffix h = ground arith

module _ {A P : Type 0} (netip : Netip A P) (local : List P) where
  -- what an entry says of an address
  pub data OpensAddr (entry : Bytes) (addr : A) : Type 0 where
    private_range :
        entry ≡ bytes "private"
        → contains_any netip (private_prefixes netip) addr ≡ true
        → OpensAddr entry addr
    local_range :
        entry ≡ bytes "private" → contains_any netip local addr ≡ true → OpensAddr entry addr
    loopback_range :
        entry ≡ bytes "loopback"
        → contains_any netip (loopback_prefixes netip) addr ≡ true
        → OpensAddr entry addr
    range :
        (p : P)
        → netip.parse_prefix entry ≡ some p
        → netip.contains (netip.masked p) addr ≡ true
        → OpensAddr entry addr
    address :
        (a : A)
        → netip.parse_addr entry ≡ some a
        → netip.contains (netip.single (netip.unmap a)) addr ≡ true
        → OpensAddr entry addr

  -- all that a policy allows, some entry opens
  pub data Explained (entries : List Bytes) (p : Policy P) : Type 0 where
    explained :
        p.local_ipv6 ≡ local
        → ((a : A)
            → contains_any netip p.allowed_prefixes a ≡ true
            → (e : Bytes) × (has_text entries e ≡ true) × OpensAddr e a)
        → ((h : Bytes)
            → has_text p.allowed_hosts h ≡ true
            → (e : Bytes) × (has_text entries e ≡ true) × OpensHost e h)
        → ((h : Bytes)
            → any_suffix netip p.allowed_host_suffixes h ≡ true
            → (e : Bytes) × (has_text entries e ≡ true) × OpensHost e h)
        → Explained entries p

  contains_any-append :
      (ps qs : List P) (a : A)
      → contains_any netip (ps ++ qs) a ≡ (contains_any netip ps a || contains_any netip qs a)
  contains_any-append [] qs a = refl
  contains_any-append (p ∷ ps) qs a = ground (arith, contains_any-append ps qs a)

  any_suffix-append :
      (ss ts : List Bytes) (h : Bytes)
      → any_suffix netip (ss ++ ts) h ≡ (any_suffix netip ss h || any_suffix netip ts h)
  any_suffix-append [] ts h = refl
  any_suffix-append (s ∷ ss) ts h = ground (arith, any_suffix-append ss ts h)

  module _ (entries : List Bytes) (entry : Bytes) (listed : has_text entries entry ≡ true) where
    more_prefixes :
        (p : Policy P) (qs : List P)
        → ((a : A) → contains_any netip qs a ≡ true → OpensAddr entry a)
        → Explained entries p
        → Explained entries (record p { allowed_prefixes = p.allowed_prefixes ++ qs })
    more_prefixes p qs opens (explained same addrs hosts suffixes) =
        explained same
          (λ a h. elim (Bool-cases (contains_any netip p.allowed_prefixes a)) [
            | inl old ↦ addrs a old
            | inr new ↦ (
              entry,
              listed,
              opens a (ground (arith, contains_any-append p.allowed_prefixes qs a)),
            )
          ])
          hosts suffixes

    more_hosts :
        (p : Policy P)
        → is_valid_hostname entry ≡ true
        → Explained entries p
        → Explained entries (record p { allowed_hosts = p.allowed_hosts ++ (entry ∷ []) })
    more_hosts p valid (explained same addrs hosts suffixes) =
        explained same addrs
          (λ h k. elim (Bool-cases (has_text p.allowed_hosts h)) [
            | inl old ↦ hosts h old
            | inr new ↦
                let is : eq_bytes entry h ≡ true =
                  ground (arith, has_text-append p.allowed_hosts (entry ∷ []) h) in
                (entry, listed, exact (sym ((eq_bytes_iff entry h).0 is)) valid)
          ])
          suffixes

    more_suffixes :
        (p : Policy P) (suffix : Bytes)
        → entry ≡ 42 ∷ 46 ∷ suffix
        → is_valid_hostname suffix ≡ true
        → Explained entries p
        → Explained entries
            (record p { allowed_host_suffixes = p.allowed_host_suffixes ++ ((46 ∷ suffix) ∷ []) })
    more_suffixes p suffix is valid (explained same addrs hosts suffixes) =
        explained same addrs hosts (λ h k.
          elim (Bool-cases (any_suffix netip p.allowed_host_suffixes h)) [
            | inl old ↦ suffixes h old
            | inr new ↦ (
              entry,
              listed,
              wildcard suffix is valid (
                  ground (arith, any_suffix-append p.allowed_host_suffixes ((46 ∷ suffix) ∷ []) h)),
            )
          ])

    local_of : (p : Policy P) → Explained entries p → p.local_ipv6 ≡ local
    local_of p (explained same addrs hosts suffixes) = same

    with_host-Explained :
        (p p' : Policy P) (w : Option Bytes)
        → cut_wildcard entry ≡ w
        → Explained entries p
        → with_host netip p entry w ≡ ok p'
        → Explained entries p'
    with_host-Explained p p' (some suffix) c x h = elim (Bool-cases (is_valid_hostname suffix)) [
      | inl valid ↦
          let h' = rw valid at h in
          let same : record p {
            allowed_host_suffixes = p.allowed_host_suffixes ++ ((46 ∷ suffix) ∷ []);
          }
              ≡ p' =
            cc in
          subst (Explained entries) same
            (more_suffixes p suffix (cut_wildcard_lem entry suffix c) valid x)
      | inr bad ↦ let h' = rw bad at h in cc
    ]
    with_host-Explained p p' none c x h = elim (Bool-cases (is_valid_hostname entry)) [
      | inl valid ↦
          let h' = rw valid at h in
          let same : record p { allowed_hosts = p.allowed_hosts ++ (entry ∷ []) } ≡ p' = cc in
          subst (Explained entries) same (more_hosts p valid x)
      | inr bad ↦ let h' = rw bad at h in cc
    ]

    with_addr-Explained :
        (p p' : Policy P) (a : Option A)
        → netip.parse_addr entry ≡ a
        → Explained entries p
        → with_addr netip p entry a ≡ ok p'
        → Explained entries p'
    with_addr-Explained p p' none r x h = with_host-Explained p p' (cut_wildcard entry) refl x h
    with_addr-Explained p p' (some a) r x h =
        let same : record p {
          allowed_prefixes = p.allowed_prefixes ++ (netip.single (netip.unmap a) ∷ []);
        }
            ≡ p' =
          cc in
        subst (Explained entries) same (
          more_prefixes p (netip.single (netip.unmap a) ∷ []) (λ b k. address a r (ground arith)) x)

    with_range-Explained :
        (p p' : Policy P) (r : Option P)
        → netip.parse_prefix entry ≡ r
        → Explained entries p
        → with_range netip p r ≡ ok p'
        → Explained entries p'
    with_range-Explained p p' none r x h = cc
    with_range-Explained p p' (some q) r x h =
        let same : record p { allowed_prefixes = p.allowed_prefixes ++ (netip.masked q ∷ []) }
            ≡ p' =
          cc in
        subst (Explained entries) same
          (more_prefixes p (netip.masked q ∷ []) (λ b k. range q r (ground arith)) x)

    private-Explained :
        (p : Policy P)
        → entry ≡ bytes "private"
        → Explained entries p
        → Explained entries (record p {
          allowed_prefixes = (p.allowed_prefixes ++ private_prefixes netip) ++ p.local_ipv6;
        })
    private-Explained p is x =
        more_prefixes (record p { allowed_prefixes = p.allowed_prefixes ++ private_prefixes netip })
          p.local_ipv6
          (λ a k. local_range is (subst (λ ls. contains_any netip ls a ≡ true) (local_of p x) k))
          (more_prefixes p (private_prefixes netip) (λ a k. private_range is k) x)

    with_entry-Explained :
        (p p' : Policy P)
        → Explained entries p
        → with_entry netip p entry ≡ ok p'
        → Explained entries p'
    unfolding with_entry
    with_entry-Explained p p' x h = elim (Bool-cases (eq_bytes entry (bytes "none"))) [
      | inl on ↦ let h' = rw on at h in let same : p ≡ p' = cc in subst (Explained entries) same x
      | inr not_none ↦ elim (Bool-cases (eq_bytes entry (bytes "private"))) [
        | inl on ↦
            let h' = rw (not_none, on) at h in
            let same : record p {
              allowed_prefixes = (p.allowed_prefixes ++ private_prefixes netip) ++ p.local_ipv6;
            }
                ≡ p' =
              cc in
            subst (Explained entries) same
              (private-Explained p ((eq_bytes_iff entry (bytes "private")).0 on) x)
        | inr not_private ↦ elim (Bool-cases (eq_bytes entry (bytes "loopback"))) [
          | inl on ↦
              let h' = rw (not_none, not_private, on) at h in
              let same : record p {
                allowed_prefixes = p.allowed_prefixes ++ loopback_prefixes netip;
              }
                  ≡ p' =
                cc in
              subst (Explained entries) same (
                more_prefixes p (loopback_prefixes netip)
                  (λ a k. loopback_range ((eq_bytes_iff entry (bytes "loopback")).0 on) k) x)
          | inr not_loopback ↦ elim (Bool-cases (has_slash entry)) [
            | inl on ↦
                with_range-Explained p p' (netip.parse_prefix entry) refl x
                  (rw (not_none, not_private, not_loopback, on) at h)
            | inr off ↦
                with_addr-Explained p p' (netip.parse_addr entry) refl x
                  (rw (not_none, not_private, not_loopback, off) at h)
          ]
        ]
      ]
    ]

  with_entries-Explained :
      (all_entries : List Bytes) (p p' : Policy P) (entries : List Bytes)
      → Within entries all_entries
      → Explained all_entries p
      → with_entries netip p entries ≡ ok p'
      → Explained all_entries p'
  unfolding with_entries
  with_entries-Explained all_entries p p' [] within x h =
      let same : p ≡ p' = cc in subst (Explained all_entries) same x
  with_entries-Explained all_entries p p' (entry ∷ entries) (listed, within) x h =
      go (if eq_bytes entry [] then ok p else with_entry netip p entry) refl h
        (λ q. with_entries-Explained all_entries q p' entries within)
    where
      go :
          (r : Result (Policy P))
          → (if eq_bytes entry [] then ok p else with_entry netip p entry) ≡ r
          → ◌≡◌ {A = Result (Policy P)}
              (elim r [ ok q ↦ with_entries netip q entries | err e ↦ err e ])
              (ok p')
          → ((q : Policy P)
              → Explained all_entries q
              → with_entries netip q entries ≡ ok p'
              → Explained all_entries p')
          → Explained all_entries p'
      go (err e) s k rest = cc
      go (ok q) s k rest = elim (Bool-cases (eq_bytes entry [])) [
        | inl blank ↦
            let s' = rw blank at s in
            let same : p ≡ q = cc in rest q (subst (Explained all_entries) same x) k
        | inr full ↦ rest q (with_entry-Explained all_entries entry listed p q x (rw full at s)) k
      ]

  -- what a policy is parsed to allows nothing else
  pub parse_policy-Explained :
      (value : Bytes) (p : Policy P)
      → parse_policy netip value local ≡ ok p
      → Explained (entries_of value) p
  unfolding parse_policy
  parse_policy-Explained value p h =
      with_entries-Explained (entries_of value) (empty_policy local) p (entries_of value)
        (Within-refl (entries_of value)) (explained refl (λ a k. cc) (λ a k. cc) (λ a k. cc)) h

  -- why an address may be reached
  pub data AddrAllowed (entries : List Bytes) (p : Policy P) (addr : A) : Type 0 where
    public_addr : is_blocked netip p addr ≡ false → AddrAllowed entries p addr
    opened_addr :
        (e : Bytes) → has_text entries e ≡ true → OpensAddr e addr → AddrAllowed entries p addr

  pub allow_addr-AddrAllowed :
      (entries : List Bytes) (p : Policy P) (addr : A)
      → Explained entries p
      → allow_addr netip p addr ≡ true
      → (netip.is_valid (canonical netip addr) ≡ true)
        × AddrAllowed entries p (canonical netip addr)
  unfolding allow_addr
  allow_addr-AddrAllowed entries p addr (explained same addrs hosts suffixes) h =
      elim (Bool-cases (netip.is_valid (canonical netip addr))) [
        | inr bad ↦ let h' = rw bad at h in cc
        | inl valid ↦ elim (Bool-cases (is_blocked netip p (canonical netip addr))) [
          | inr free ↦ (valid, public_addr free)
          | inl blocked ↦
              let (e, listed, opens) = addrs (canonical netip addr) (rw (valid, blocked) at h) in
              (valid, opened_addr e listed opens)
        ]
      ]

  pub allow_url-OpensHost :
      (entries : List Bytes) (p : Policy P) (hostname : Bytes)
      → Explained entries p
      → allow_url netip p hostname ≡ true
      → (e : Bytes) × (has_text entries e ≡ true) × OpensHost e (normalize_hostname hostname)
  unfolding allow_url
  allow_url-OpensHost entries p hostname (explained same addrs hosts suffixes) h =
      elim (Bool-cases (eq_bytes (normalize_hostname hostname) [])) [
        | inl blank ↦ let h' = rw blank at h in cc
        | inr full ↦ elim (Bool-cases (has_text p.allowed_hosts (normalize_hostname hostname))) [
          | inl on ↦ hosts (normalize_hostname hostname) on
          | inr off ↦ suffixes (normalize_hostname hostname) (rw (full, off) at h)
        ]
      ]
