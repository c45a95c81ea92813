-- ===== src/Allowlist.antt =====
-- glc/security/allowlists.py: who may speak on a channel. `none` is `(True, "")`.
-- The parts of channels.yaml that it reads are an argument.
pub mod Exact
mod Tests
use gateway_glc_v.Common.{
  Bool, true, false, not, ◌&&◌, String, List, [], Option, none, some, if◌then◌else◌, contains,
  String-eq,
}
use gateway_glc_v.Common.Dict.{Dict, get}

-- A block of channels.yaml: a key may be absent.
pub record Block : Type 0 where
  pub allowed_senders : Option (List String)
  pub mention_only_in_public : Option Bool
  pub enabled : Option Bool

pub record ChannelsConfig : Type 0 where
  pub defaults : Block
  pub channels : Dict String Block

pub record Entry : Type 0 where
  pub allowed_senders : List String
  pub mention_only_in_public : Bool
  pub enabled : Bool

abbrev or_else {ℓ} : {A : Type ℓ} → Option A → A → A
or_else none d = d
or_else (some a) d = a

abbrev empty_block : Block
empty_block = record { allowed_senders = none; mention_only_in_public = none; enabled = none }

-- `_entry`
unfoldable pub entry : ChannelsConfig → String → Entry
entry cfg channel =
    let ch = or_else (get cfg.channels channel) empty_block in
    record {
      allowed_senders = or_else ch.allowed_senders (or_else cfg.defaults.allowed_senders []);
      mention_only_in_public =
          or_else ch.mention_only_in_public (or_else cfg.defaults.mention_only_in_public true);
      enabled = or_else ch.enabled true;
    }

pub data Refusal : Type 0 where
  channel_disabled : String → Refusal
  owner_not_mentioned : Refusal
  not_in_allowed_senders : String → String → Refusal
  sender_not_mentioned : Refusal

unfoldable pub allowed :
    ChannelsConfig → String → String → List String → Bool → Bool → Option Refusal
allowed yaml channel user owner_ids is_public was_mentioned =
    let cfg = entry yaml channel in
    if not cfg.enabled
    then some (channel_disabled channel)
    else if contains owner_ids user
    then (if is_public && cfg.mention_only_in_public && not was_mentioned
        then some owner_not_mentioned
        else none)
    else if not (contains cfg.allowed_senders user)
    then some (not_in_allowed_senders user channel)
    else if is_public && cfg.mention_only_in_public && not was_mentioned
    then some sender_not_mentioned
    else none
