-- ===== src/Ssrf/Safe.antt =====
-- What a target that passed the guard is.
use gateway_glc_v.Common.{
  ℕ, ◌≡◌, refl, true, false, ◌||◌, List, [], ◌∷◌, none, some, contains, Result, ok, err, >>=-eq-ok,
  guard-eq-ok, All, arith, Option-cases, inl, inr, ◌⊎◌,
}
use gateway_glc_v.Common.Text.{Text, codes, text_beq, text_beq_iff, text_eq}
use gateway_glc_v.Ssrf.{
  Ip, Net, ValidatedTarget, Blocked, is_blocked_ip, checked, check_addresses, allowlist,
  host_listed, port_of, parsed_url, resolved, first_safe, host_of, resolve_validated,
}

-- The address is one, and is not blocked.
abbrev pub Usable : Net → Text → Type 0
Usable net addr = (ip : Ip) × (net.ip_address addr ≡ some ip) × (is_blocked_ip ip ≡ false)

-- If it is an address, it is not blocked.
abbrev pub NotBlocked : Net → Text → Type 0
NotBlocked net addr = (ip : Ip) → net.ip_address addr ≡ some ip → is_blocked_ip ip ≡ false

module _ (net : Net) (host : Text) where
  checked_parts :
      (addr : Text) (rest : Result Blocked (List Text)) (safe : List Text)
      → checked net host addr (net.ip_address addr) rest ≡ ok safe
      → ((net.ip_address addr ≡ none) × (rest ≡ ok safe))
        ⊎ ((others : List Text) × (rest ≡ ok others) × (safe ≡ addr ∷ others) × Usable net addr)
  unfolding checked
  checked_parts addr (err e) safe h = elim (Option-cases (net.ip_address addr)) [
    | inl p ↦ inl (p, ground arith)
    | inr (ip, p) ↦ absurd (ground arith)
  ]
  checked_parts addr (ok others) safe h = elim (Option-cases (net.ip_address addr)) [
    | inl p ↦ inl (p, ground arith)
    | inr (ip, p) ↦ inr (others, refl, ground arith, (ip, p, ground arith))
  ]

  Usable-NotBlocked : (addr : Text) → Usable net addr → NotBlocked net addr
  Usable-NotBlocked addr (ip, p, h) ip' p' = ground arith

  -- what is kept is one of the addresses
  addresses_among :
      (addrs safe : List Text)
      → check_addresses net host addrs ≡ ok safe
      → (full : List Text) → All (λ a. contains full a ≡ true) addrs
      → All (λ a. contains full a ≡ true) safe
  unfolding check_addresses
  addresses_among [] [] h full m = tt
  addresses_among [] (_ ∷ _) h full m = cc
  addresses_among (addr ∷ addrs) safe h full m =
      elim (checked_parts addr (check_addresses net host addrs) safe h) [
        | inl (p, rest) ↦ addresses_among addrs safe rest full m.1
        | inr (others, rest, e, u) ↦ rw e (m.0, addresses_among addrs others rest full m.1)
      ]

  addresses_sound :
      (addrs safe : List Text)
      → check_addresses net host addrs ≡ ok safe
      → All (NotBlocked net) addrs × All (Usable net) safe
  unfolding check_addresses
  addresses_sound [] [] h = (tt, tt)
  addresses_sound [] (_ ∷ _) h = cc
  addresses_sound (addr ∷ addrs) safe h =
      elim (checked_parts addr (check_addresses net host addrs) safe h) [
        | inl (p, rest) ↦
            let (all, usable) = addresses_sound addrs safe rest in
            ((λ ip q. ground arith, all), usable)
        | inr (others, rest, e, u) ↦
            let (all, usable) = addresses_sound addrs others rest in
            ((Usable-NotBlocked addr u, all), rw e (u, usable))
      ]

contains_self :
    (xs full : List Text)
    → ((a : Text) → contains xs a ≡ true → contains full a ≡ true)
    → All (λ a. contains full a ≡ true) xs
contains_self [] full f = tt
contains_self (x ∷ xs) full f =
    (f x (ground (arith, text_beq_iff x x)), contains_self xs full (λ a h. f a (ground arith)))

-- What a target says: its scheme, its host, the addresses that its host resolved to, and its own.
pub record IsSafe (net : Net) (allow_env : Text) (t : ValidatedTarget) : Type 0 where
  pub scheme_http : (t.scheme ≡ codes "http") ⊎ (t.scheme ≡ codes "https")
  pub listed : host_listed (allowlist allow_env) t.host ≡ true
  pub addresses : List Text
  pub resolved_to : net.getaddrinfo t.host t.port ≡ some addresses
  pub none_blocked : All (NotBlocked net) addresses
  pub among : contains addresses t.ip ≡ true
  pub usable : Usable net t.ip

resolved_parts :
    (net : Net) (host : Text) (port : ℕ) (addrs : List Text)
    → resolved net host port ≡ ok addrs
    → net.getaddrinfo host port ≡ some addrs
resolved_parts net host port addrs h = ground arith

target_parts :
    (net : Net) (allow_env scheme host : Text) (port : ℕ) (addrs safe : List Text)
    (t : ValidatedTarget)
    → (text_beq scheme (codes "http") || text_beq scheme (codes "https")) ≡ true
    → host_listed (allowlist allow_env) host ≡ true
    → net.getaddrinfo host port ≡ some addrs
    → check_addresses net host addrs ≡ ok safe
    → first_safe scheme host port safe ≡ ok t
    → IsSafe net allow_env t
target_parts net allow_env scheme host port addrs [] t hs hl hr hc ht = cc
target_parts net allow_env scheme host port addrs (ip ∷ safe) t hs hl hr hc ht =
    let e : t ≡ record { scheme = scheme; host = host; port = port; ip = ip } = ground arith in
    let (all, usable) = addresses_sound net host addrs (ip ∷ safe) hc in
    rw e (record {
      scheme_http =
          ground (arith, text_beq_iff scheme (codes "http"), text_beq_iff scheme (codes "https"));
      listed = hl;
      addresses = addrs;
      resolved_to = hr;
      none_blocked = all;
      among =
          (addresses_among net host addrs (ip ∷ safe) hc addrs
            (contains_self addrs addrs (λ a h. h))).0;
      usable = usable.0;
    })

-- A target that passes the guard has the scheme http or https and a host that is on the allowlist, if
-- there is one; of the addresses that its host resolved to none is blocked, and its own is one of
-- them, is an address and is not blocked.
pub resolve_validated-IsSafe :
    (net : Net) (allow_env url : Text) (t : ValidatedTarget)
    → resolve_validated net allow_env url ≡ ok t
    → IsSafe net allow_env t
unfolding resolve_validated
resolve_validated-IsSafe net allow_env url t h =
    let (u, _, h0) = >>=-eq-ok (parsed_url (net.urlparse url)) _ h in
    let (hs, h1) = guard-eq-ok _ _ _ h0 in
    let (host, _, h2) = >>=-eq-ok (host_of u.hostname) _ h1 in
    let (hl, h3) = guard-eq-ok _ _ _ h2 in
    let (port, _, hp) = >>=-eq-ok (port_of u.port u.scheme) _ h3 in
    let (addrs, ha, h4) = >>=-eq-ok (resolved net host port) _ hp in
    let (safe, hc, h5) = >>=-eq-ok (check_addresses net host addrs) _ h4 in
    target_parts net allow_env u.scheme host port addrs safe t hs hl
      (resolved_parts net host _ addrs ha) hc h5
