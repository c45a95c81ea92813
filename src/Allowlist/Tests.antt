-- ===== src/Allowlist/Tests.antt =====
-- The allowlist on a small configuration.
use gateway_glc_v.Common.{
  ◌≡◌, refl, true, false, not, ◌&&◌, ◌||◌, String, [], ◌∷◌, none, some, contains, String-eq,
  is_some,
}
use gateway_glc_v.Allowlist.{ChannelsConfig, entry, allowed, not_in_allowed_senders}
use gateway_glc_v.Allowlist.Exact.{allowed_exact}

abbrev config : ChannelsConfig
config = record {
  defaults = record { allowed_senders = none; mention_only_in_public = none; enabled = none };
  channels =
      (
        "slack",
        record {
          allowed_senders = some ("bob" ∷ []);
          mention_only_in_public = some false;
          enabled = none;
        },
      )
      ∷ [];
}

mentioned_stranger :
    allowed config "discord" "eve" [] true true ≡ some (not_in_allowed_senders "eve" "discord")
unfolding allowed entry
mentioned_stranger = refl

allowed_exact_example : not (is_some (allowed config "slack" "bob" [] true false)) ≡ (
    (entry config "slack").enabled
    && (contains {K = String} [] "bob" || contains (entry config "slack").allowed_senders "bob")
    && not (true && (entry config "slack").mention_only_in_public && not false))
allowed_exact_example = allowed_exact config "slack" "bob" [] true false
