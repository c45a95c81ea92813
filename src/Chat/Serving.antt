-- ===== src/Chat/Serving.antt =====
-- What a request gets, and how often providers are asked for it.
use gateway_glc_v.Common.{
  if◌then◌else◌, eqb, ℕ, ◌+◌, ◌*◌, ◌≤◌, ◌≡◌, true, ◌&&◌, List, if◌then◌else◌, length, contains,
  none,
}
use gateway_glc_v.Routing.Providers.{Provider, provider_eq}
use gateway_glc_v.Routing.Ring.{Router}
use gateway_glc_v.Routing.Pick.{IsFit}
use gateway_glc_v.Chat.Upstream.{Upstream}
use gateway_glc_v.Chat.Failover.{
  Request, Chat, Outcome, Status, answered, structured_failed, bad_gateway, all_unavailable,
}
use gateway_glc_v.Chat.Rows.{count, one_if}

module _ (r : Router) (u : Upstream) (clock : ℕ → ℕ) (q : Request) where
  -- What the outcome says of the candidates.
  abbrev pub Good : List Provider → Outcome → Type 0
  Good cs (answered name reply) =
      (contains cs name ≡ true)
      × IsFit r q.est q.required_caps name
      × ((if q.structured && eqb reply.tool_calls 0 then u.validate reply.text else true) ≡ true)
      × (u.response reply ≡ none)
  Good cs structured_failed = Unit
  Good cs (bad_gateway name) = contains cs name ≡ true
  Good cs all_unavailable = Unit

  pub record Served (cs : List Provider) (c : Chat) (res : Chat × Outcome) : Type 0 where
    pub logged_once :
        (p : Provider) (st : Status)
        → count p st res.0.log ≤ count p st c.log + one_if (contains cs p)
    pub calls_bounded : res.0.calls ≤ c.calls + 3 * length cs
    pub good : Good cs res.1
