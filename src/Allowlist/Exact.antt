-- ===== src/Allowlist/Exact.antt =====
-- The allowlist as one condition.
use gateway_glc_v.Common.{
  ◌≡◌, Bool, true, false, not, ◌&&◌, ◌||◌, String, List, [], contains, String-eq, is_some, arith,
}
use gateway_glc_v.Allowlist.{ChannelsConfig, entry, allowed}

-- A call is let through exactly if the channel is enabled, the sender is an owner or in
-- `allowed_senders`, and in a public channel that wants mentions there was a mention.
pub allowed_exact :
    (yaml : ChannelsConfig) (channel user : String) (owners : List String)
    (is_public mentioned : Bool)
    → not (is_some (allowed yaml channel user owners is_public mentioned)) ≡ (
        (entry yaml channel).enabled
        && (contains owners user || contains (entry yaml channel).allowed_senders user)
        && not (is_public && (entry yaml channel).mention_only_in_public && not mentioned))
unfolding allowed
allowed_exact yaml channel user owners is_public mentioned = ground arith

-- With an empty `allowed_senders` no one but an owner is let through, mentioned in public or not.
pub empty_senders_owner_only :
    (yaml : ChannelsConfig) (channel user : String) (owners : List String)
    (is_public mentioned : Bool)
    → (entry yaml channel).allowed_senders ≡ []
    → contains owners user ≡ false
    → is_some (allowed yaml channel user owners is_public mentioned) ≡ true
unfolding allowed
empty_senders_owner_only yaml channel user owners is_public mentioned e h = rw (e, h) (ground arith)
