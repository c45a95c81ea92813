-- ===== src/Control/Tests.antt =====
-- Runs of the control plane on concrete inputs.
use gateway_glc_v.Common.{◌≡◌, ◌⊎◌, ◌↔◌, refl, String, none, some, Result, ok, arith}
use gateway_glc_v.Common.Text.{codes, strip, lstrip}
use gateway_glc_v.Pairing.{empty, issue_code, format_code}
use gateway_glc_v.Control.{
  Refused, PairRequest, pair, pair_confirm, kill, middleware, require_token,
}
use gateway_glc_v.Control.Guarded.{Shows, middleware_exact, pair_confirm_pairs}

abbrev ann : PairRequest
ann = record {
  channel = "sms";
  channel_user_id = "7";
  user_handle = "ann";
  trust_level = "owner_paired";
}

issued :
    pair empty ann (some (codes "Bearer t0")) (codes "t0") 42 1000000
    ≡ ok (
      (issue_code empty "sms" "7" "ann" "owner_paired" 42 1000000).0,
      record { code = codes "000042"; expires_at = 301000000; ttl_seconds = 300 },
    )
unfolding pair require_token strip lstrip issue_code format_code
issued = refl

pair_confirm_pairs_example :
    (pair_confirm
      (issue_code empty "sms" "7" "ann" "owner_paired" 42 1000000).0
      (codes "000042")
      (some (codes "Bearer t0"))
      (codes "t0")
      2000000
      2000001).answer
    ≡ ok (record {
      channel = "sms";
      channel_user_id = "7";
      user_handle = "ann";
      trust_level = "owner_paired";
      paired_at = 2000001;
    })
pair_confirm_pairs_example =
    pair_confirm_pairs empty _ ann (some (codes "Bearer t0")) (codes "t0") 42 1000000 2000000
      2000001 _ issued (omega arith)

stopped : kill none (some "::1") (some (codes "Bearer t0")) (codes "t0") ≡ ok tt
unfolding kill require_token strip lstrip
stopped = refl

abbrev page : Result Refused String
page = ok "index"

middleware_exact_example :
    (middleware "/v1/chat" none (codes "t0") page ≡ ok "index")
    ↔ (((◌≡◌ {A = String} "/v1/chat" "/healthz") ⊎ Shows none (codes "t0")) × (page ≡ ok "index"))
middleware_exact_example = middleware_exact "/v1/chat" none (codes "t0") page "index"
