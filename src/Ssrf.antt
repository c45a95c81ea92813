-- ===== src/Ssrf.antt =====
-- glc/security/ssrf.py: which addresses the gateway may fetch an image from.
-- `urlparse`, `getaddrinfo` and the classes of the `ipaddress` module are arguments.
pub mod Safe
mod Tests
use gateway_glc_v.Common.{
  ℕ, Bool, true, false, not, ◌&&◌, ◌||◌, List, [], ◌∷◌, Option, none, some, if◌then◌else◌, contains,
  Result, ok, err, ◌>>=◌, guard, ◌>>◌, eqb, map, keep,
}
use gateway_glc_v.Common.Text.{Text, codes, text_beq, text_eq, lower, split, strip}

-- The properties of one address, as `ipaddress` gives them.
pub record Flags : Type 0 where
  pub is_loopback : Bool
  pub is_private : Bool
  pub is_link_local : Bool
  pub is_reserved : Bool
  pub is_multicast : Bool
  pub is_unspecified : Bool

-- An IPv4 address, or an IPv6 address with the IPv4 address that it maps to, if any.
pub data Ip : Type 0 where
  v4 : Flags → Ip
  v6 : Flags → Option Flags → Ip

abbrev pub any_flag : Flags → Bool
any_flag f =
    f.is_loopback || f.is_private || f.is_link_local || f.is_reserved || f.is_multicast
    || f.is_unspecified

-- `_is_blocked_ip`
unfoldable pub is_blocked_ip : Ip → Bool
is_blocked_ip (v4 f) = any_flag f
is_blocked_ip (v6 f none) = any_flag f
is_blocked_ip (v6 f (some mapped)) = any_flag mapped

-- A parsed URL; its port is none where reading it raises a ValueError.
pub record Url : Type 0 where
  pub scheme : Text
  pub hostname : Option Text
  pub port : Option (Option ℕ)

pub record ValidatedTarget : Type 0 where
  pub scheme : Text
  pub host : Text
  pub port : ℕ
  pub ip : Text

-- What the guard raises: the messages of `BlockedURLError`, and the ValueError of `urlparse` or of
-- the port.
pub data Blocked : Type 0 where
  value_error : Blocked
  scheme_not_allowed : Text → Blocked
  no_host : Blocked
  not_in_allowlist : Text → Blocked
  cannot_resolve : Text → Blocked
  blocked_address : Text → Text → Blocked
  no_usable_address : Text → Blocked

-- What the guard asks of the libraries and of the network.
pub record Net : Type 0 where
  pub urlparse : Text → Option Url
  pub getaddrinfo : Text → ℕ → Option (List Text)
  pub ip_address : Text → Option Ip

abbrev nonempty : Text → Bool
nonempty [] = false
nonempty (_ ∷ _) = true

-- `_allowlist`, of the value of GLC_IMAGE_URL_ALLOWLIST
unfoldable pub allowlist : Text → List Text
allowlist raw = map (λ h. lower (strip h)) (keep (λ h. nonempty (strip h)) (split b',' raw))

abbrev host_listed : List Text → Text → Bool
host_listed [] host = true
host_listed (h ∷ hs) host = contains (h ∷ hs) (lower host)

-- the first test of the loop, for an address that is one
unfoldable pub checked :
    Net → Text → Text → Option Ip → Result Blocked (List Text) → Result Blocked (List Text)
checked net host addr none rest = rest
checked net host addr (some ip) rest =
    if is_blocked_ip ip then err (blocked_address host addr) else rest >>= λ safe. ok (addr ∷ safe)

-- the loop over the resolved addresses: those that are usable, or the first that is blocked
unfoldable pub check_addresses : Net → Text → List Text → Result Blocked (List Text)
unfolding checked
check_addresses net host [] = ok []
check_addresses net host (addr ∷ addrs) =
    let rest = check_addresses net host addrs in checked net host addr (net.ip_address addr) rest

-- a port of 0 counts as absent
abbrev port_or : Option ℕ → Text → ℕ
port_or (some (ℕ.suc n)) scheme = ℕ.suc n
port_or _ scheme = if text_beq scheme (codes "https") then 443 else 80

abbrev pub port_of : Option (Option ℕ) → Text → Result Blocked ℕ
port_of none scheme = err value_error
port_of (some port) scheme = ok (port_or port scheme)

abbrev pub parsed_url : Option Url → Result Blocked Url
parsed_url none = err value_error
parsed_url (some u) = ok u

abbrev resolved : Net → Text → ℕ → Result Blocked (List Text)
resolved net host port = elim (net.getaddrinfo host port) [
  | none ↦ err (cannot_resolve host)
  | some addrs ↦ ok addrs
]

abbrev first_safe : Text → Text → ℕ → List Text → Result Blocked ValidatedTarget
first_safe scheme host port [] = err (no_usable_address host)
first_safe scheme host port (ip ∷ _) =
    ok (record { scheme = scheme; host = host; port = port; ip = ip })

-- `if not host`
abbrev host_of : Option Text → Result Blocked Text
host_of none = err no_host
host_of (some []) = err no_host
host_of (some (c ∷ host)) = ok (c ∷ host)

unfoldable pub resolve_validated : Net → Text → Text → Result Blocked ValidatedTarget
resolve_validated net allow_env url = do
  parsed ← parsed_url (net.urlparse url)
  guard (text_beq parsed.scheme (codes "http") || text_beq parsed.scheme (codes "https"))
      (scheme_not_allowed parsed.scheme)
  host ← host_of parsed.hostname
  guard (host_listed (allowlist allow_env) host) (not_in_allowlist host)
  port ← port_of parsed.port parsed.scheme
  addrs ← resolved net host port
  safe ← check_addresses net host addrs
  first_safe parsed.scheme host port safe

unfoldable pub validate_url : Net → Text → Text → Result Blocked (Unit {0})
unfolding resolve_validated
validate_url net allow_env url = (resolve_validated net allow_env url) >>= λ _. ok tt
