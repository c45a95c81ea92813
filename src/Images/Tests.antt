-- ===== src/Images/Tests.antt =====
-- A run of the image fetch through one redirect.
use gateway_glc_v.Common.{◌≡◌, refl, false, if◌then◌else◌, List, [], ◌∷◌, some, ok, eqb}
use gateway_glc_v.Common.Text.{codes, strip}
use gateway_glc_v.Ssrf.{
  v4, Net, resolve_validated, checked, check_addresses, allowlist, is_blocked_ip,
}
use gateway_glc_v.Images.{
  Web, redirect, success, Message, plain, blocks, image_url, other_block, Hops, resolve_block,
  resolve_blocks, resolve_message, resolve_image_urls, fetch_to_data_url, fetch_loop, round,
}
use gateway_glc_v.Images.Fetch.{Guarded}
use gateway_glc_v.Images.Inline.{images-Guarded}

abbrev open_net : Net
open_net = record {
  urlparse =
      λ t. some (record { scheme = codes "http"; hostname = some t; port = some (some 8080) });
  getaddrinfo = λ host port. some (codes "93.184.216.34" ∷ []);
  ip_address = λ t. some (
      v4 (record {
        is_loopback = false;
        is_private = false;
        is_link_local = false;
        is_reserved = false;
        is_multicast = false;
        is_unspecified = false;
      }));
}

abbrev one_redirect : Web
one_redirect = record {
  net_at = λ n. open_net;
  get_pinned = λ n url t.
      if eqb n 0
      then redirect (some (codes "http://b/x"))
      else success (some (codes "image/gif; q=1")) (codes "GIF");
  join_url = λ base loc. some loc;
  base64 = λ content. codes "R0lG";
}

abbrev asked : List Message
asked =
    (record { role = codes "system"; content = plain (codes "hi") })
    ∷ (record {
      role = codes "user";
      content = blocks (
          other_block (codes "what is this?")
          ∷ image_url (codes "http://a/x")
          ∷ image_url (codes "data:x")
          ∷ []);
    })
    ∷ []

abbrev answered : List Message
answered =
    (record { role = codes "system"; content = plain (codes "hi") })
    ∷ (record {
      role = codes "user";
      content = blocks (
          other_block (codes "what is this?")
          ∷ image_url (codes "data:image/gif;base64,R0lG")
          ∷ image_url (codes "data:x")
          ∷ []);
    })
    ∷ []

abbrev no_hops : Hops
no_hops = record { count = 0; connections = [] }

fetched : (resolve_image_urls one_redirect [] asked no_hops).0 ≡ ok answered
unfolding resolve_image_urls resolve_message resolve_blocks resolve_block fetch_to_data_url
    fetch_loop round resolve_validated checked check_addresses allowlist is_blocked_ip strip
fetched = refl

images-Guarded_example :
    Guarded one_redirect [] (resolve_image_urls one_redirect [] asked no_hops).1
images-Guarded_example = images-Guarded one_redirect [] asked
