-- ===== src/Ssrf/Tests.antt =====
-- A run of the guard on a concrete network.
use gateway_glc_v.Common.{◌≡◌, refl, Bool, false, if◌then◌else◌, [], ◌∷◌, none, some, ok, err}
use gateway_glc_v.Common.Text.{codes, text_beq, strip}
use gateway_glc_v.Ssrf.{
  Flags, v4, Net, resolve_validated, checked, check_addresses, allowlist, blocked_address,
  is_blocked_ip,
}
use gateway_glc_v.Ssrf.Safe.{IsSafe, resolve_validated-IsSafe}

abbrev flags : Bool → Flags
flags private = record {
  is_loopback = false;
  is_private = private;
  is_link_local = false;
  is_reserved = false;
  is_multicast = false;
  is_unspecified = false;
}

-- one host, with a public address, and any other, with a private one besides
abbrev pub small_net : Net
small_net = record {
  urlparse = λ t. some (record { scheme = codes "https"; hostname = some t; port = some none });
  getaddrinfo = λ host port.
      if text_beq host (codes "cdn.example")
      then some (codes "93.184.216.34" ∷ [])
      else some (codes "93.184.216.34" ∷ codes "10.0.0.7" ∷ []);
  ip_address = λ t. some (v4 (flags (text_beq t (codes "10.0.0.7"))));
}

private_refused :
    resolve_validated small_net [] (codes "evil.example")
    ≡ err (blocked_address (codes "evil.example") (codes "10.0.0.7"))
unfolding resolve_validated checked check_addresses allowlist is_blocked_ip strip
private_refused = refl

public_passes :
    resolve_validated small_net (codes "cdn.example, x.example") (codes "cdn.example")
    ≡ ok (record {
      scheme = codes "https";
      host = codes "cdn.example";
      port = 443;
      ip = codes "93.184.216.34";
    })
unfolding resolve_validated checked check_addresses allowlist is_blocked_ip strip
public_passes = refl

resolve_validated-IsSafe_example : IsSafe small_net (codes "cdn.example, x.example") (record {
  scheme = codes "https";
  host = codes "cdn.example";
  port = 443;
  ip = codes "93.184.216.34";
})
resolve_validated-IsSafe_example =
    resolve_validated-IsSafe small_net (codes "cdn.example, x.example") (codes "cdn.example") _
      public_passes
