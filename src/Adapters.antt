-- ===== src/Adapters.antt =====
-- glc/channels/catalogue: what the adapters share, the trust that they give a sender and the gate of
-- a public channel.
pub mod Webhook
pub mod Line
pub mod Chats
pub mod TwilioSms
pub mod Trusted
mod Tests
use gateway_glc_v.Common.{
  Bool, true, false, String, List, map, Option, none, some, if◌then◌else◌, is_some, not,
}
use gateway_glc_v.Common.Text.{Text, codes}
use gateway_glc_v.Allowlist.{ChannelsConfig, allowed}
use gateway_glc_v.Pairing.{
  PairingStore, TrustLevel, owner_paired, user_paired, untrusted, owners, classify,
}
use gateway_glc_v.Channels.{ChannelMessage}

-- The pairing store and channels.yaml, which every adapter reads.
pub record Security : Type 0 where
  pub pairings : PairingStore
  pub channels_yaml : ChannelsConfig

-- The entries of an adapter's `config` that decide who is heard.
pub record Config : Type 0 where
  pub is_public_channel : Bool
  pub was_mentioned : Bool

abbrev pub trust_text : TrustLevel → String
trust_text owner_paired = "owner_paired"
trust_text user_paired = "user_paired"
trust_text untrusted = "untrusted"

-- `classify(channel, user)`
abbrev pub trust_of_sender : Security → String → String → String
trust_of_sender world channel user = trust_text (classify world.pairings channel user)

-- `[rec.channel_user_id for rec in get_pairing_store().owners(channel)]`
abbrev pub owner_ids : Security → String → List String
owner_ids world channel = map (λ rec. rec.channel_user_id) (owners world.pairings (some channel))

-- `ok` of `allowed(...)` with the owners of the channel
abbrev pub lets_in : Security → String → String → Bool → Bool → Bool
lets_in world channel user is_public was_mentioned = not (
    is_some
      (allowed world.channels_yaml channel user (owner_ids world channel) is_public was_mentioned))

-- A message that a gate lets through, or None.
abbrev pub passed : Bool → ChannelMessage → Option ChannelMessage
passed ok m = if ok then some m else none
