-- ===== src/Adapters/Trusted.antt =====
-- The trust that the adapters give a sender, and who is heard in a public channel.
use gateway_glc_v.Common.{
  ℕ, ◌≡◌, ◌⊎◌, inl, inr, refl, String, String-eq, pair_eq, ◌==◌, Bool, true, false, not, ◌&&◌, ◌||◌,
  List, [], Option, none, some, if◌then◌else◌, is_some, contains, arith, Bool-cases, Option-cases,
  sym, ◌∙◌,
}
use gateway_glc_v.Allowlist.{ChannelsConfig, entry, allowed}
use gateway_glc_v.Common.Dict.{get}
use gateway_glc_v.Pairing.{
  Pairing, lookup, PairingStore, classify, owner_paired, user_paired, untrusted, TrustLevel,
}
use gateway_glc_v.Pairing.Provenance.{Op, after, Granted, pairing-Granted}
use gateway_glc_v.Channels.{ChannelMessage}
use gateway_glc_v.Adapters.{
  Security, Config, trust_text, trust_of_sender, owner_ids, lets_in, passed,
}
use gateway_glc_v.Adapters.Line.{LineEvent, Tokens}
use gateway_glc_v.Adapters.Line as Line
use gateway_glc_v.Adapters.Chats.{
  TelegramMessage, SlackEvent, DiscordMessage, DiscordConfig, telegram_on_message, slack_on_message,
  discord_on_message, was_mentioned_in, slack_user, telegram_message, slack_message,
  discord_message,
}

-- An event for one of the adapters, with what its adapter keeps.
pub data Inbound : Type 0 where
  telegram : Option TelegramMessage → Inbound
  slack : SlackEvent → Inbound
  discord : DiscordConfig → DiscordMessage → Inbound
  line : Bool → Tokens → LineEvent → ℕ → Inbound

-- The message that the event's adapter makes.
abbrev pub heard : Security → Config → Inbound → Option ChannelMessage
heard world config (telegram update) = telegram_on_message world config update
heard world config (slack event) = slack_on_message world config event
heard world config (discord own m) = discord_on_message world own m
heard world config (line keeps tokens event now) =
    (Line.on_message world config keeps tokens event now).1

passed-eq-some : (b : Bool) (m m' : ChannelMessage) → passed b m ≡ some m' → (b ≡ true) × (m ≡ m')
passed-eq-some true m m' h = (refl, cc)
passed-eq-some false m m' h = cc

-- A message has the trust of the pairing store for its own channel and user.
abbrev pub IsTrusted : Security → ChannelMessage → Type 0
IsTrusted world m = m.trust_level ≡ trust_of_sender world m.channel m.channel_user_id

IsTrusted-same :
    (world : Security) (b : Bool) (m m' : ChannelMessage)
    → IsTrusted world m
    → passed b m ≡ some m'
    → IsTrusted world m'
IsTrusted-same world b m m' h e = rw (← ((passed-eq-some b m m' e).1)) h

not_bot :
    (b : Bool) (o : Option ChannelMessage) (m : ChannelMessage)
    → (if b then none else o) ≡ some m
    → o ≡ some m
not_bot true o m h = cc
not_bot false o m h = h

-- Telegram, Slack, Discord and LINE give a message exactly the trust that the pairing store has for
-- the message's channel and user, whatever the event says and however the adapter is configured.
pub heard-IsTrusted :
    (world : Security) (config : Config) (event : Inbound) (m : ChannelMessage)
    → heard world config event ≡ some m
    → IsTrusted world m
unfolding telegram_on_message slack_on_message discord_on_message Line.on_message
heard-IsTrusted world config (telegram none) m h = cc
heard-IsTrusted world config (telegram (some t)) m h = IsTrusted-same world _ _ m refl h
heard-IsTrusted world config (slack e) m h = IsTrusted-same world _ _ m refl h
heard-IsTrusted world config (line keeps tokens e now) m h = IsTrusted-same world _ _ m refl h
heard-IsTrusted world config (discord own d) m h =
    let mentioned = was_mentioned_in own.bot_user_id d.mentions in
    let gate =
      not (own.is_public || own.enforce_allowlist_in_dm)
      || lets_in world "discord" d.author.id own.is_public mentioned in
    IsTrusted-same world gate (discord_message world d) m refl
      (not_bot (own.ignore_bots && d.author.bot) _ m h)

trust_text-owner : (t : TrustLevel) → trust_text t ≡ "owner_paired" → t ≡ owner_paired
trust_text-owner owner_paired h = refl
trust_text-owner user_paired h =
    let no : false ≡ true = (String-eq.same_iff "user_paired" "owner_paired").1 h in cc
trust_text-owner untrusted h =
    let no : false ≡ true = (String-eq.same_iff "untrusted" "owner_paired").1 h in cc

owner_row_of :
    (s : PairingStore) (ch u : String)
    → classify s ch u ≡ owner_paired
    → (row : Pairing) × (get s.pairings (ch, u) ≡ some row) × (row.trust_level ≡ "owner_paired")
unfolding classify lookup
owner_row_of s ch u h = elim (Option-cases (get s.pairings (ch, u))) [
  | inl missing ↦ absurd (ground (arith, missing, h))
  | inr (row, here) ↦
      (row, here, ground (arith, here, h, String-eq.same_iff row.trust_level "owner_paired"))
]

-- Whatever calls the pairing store has served, a message that the Telegram, Slack, Discord or LINE
-- adapter marks as the owner's is from a user whom the store has as the owner of that channel, by a
-- pairing that was granted: the confirmation, no later than it expired, of a code issued for that
-- user and level, or `force_pair_owner`.
pub owner_message-Granted :
    (ops : List Op) (yaml : ChannelsConfig) (config : Config) (event : Inbound) (m : ChannelMessage)
    → heard (record { pairings = after ops; channels_yaml = yaml }) config event ≡ some m
    → m.trust_level ≡ "owner_paired"
    → (row : Pairing) × (row.trust_level ≡ "owner_paired")
      × (get (after ops).pairings (m.channel, m.channel_user_id) ≡ some row)
      × Granted ops (m.channel, m.channel_user_id) row
owner_message-Granted ops yaml config event m h owner =
    let world : Security = record { pairings = after ops; channels_yaml = yaml } in
    let marked : trust_text (classify (after ops) m.channel m.channel_user_id) ≡ "owner_paired" =
      sym (heard-IsTrusted world config event m h) ∙ owner in
    let (row, here, level) =
      owner_row_of (after ops) m.channel m.channel_user_id (trust_text-owner _ marked) in
    (row, level, here, pairing-Granted ops m.channel m.channel_user_id row here)

-- Who may be heard on a public channel: an owner, a sender that the allowlist names, or one whom the
-- pairing store has a pairing for.
abbrev pub IsKnown : Security → ChannelMessage → Type 0
IsKnown world m =
    (contains (owner_ids world m.channel) m.channel_user_id ≡ true)
    ⊎ ((contains (entry world.channels_yaml m.channel).allowed_senders m.channel_user_id ≡ true)
        ⊎ ((row : Pairing) × (get world.pairings.pairings (m.channel, m.channel_user_id)
              ≡ some row)))

allowed_known :
    (yaml : ChannelsConfig) (channel user : String) (owner_ids : List String)
    (is_public was_mentioned : Bool)
    → not (is_some (allowed yaml channel user owner_ids is_public was_mentioned)) ≡ true
    → (contains owner_ids user ≡ true) ⊎ (contains (entry yaml channel).allowed_senders user ≡ true)
unfolding allowed
allowed_known yaml channel user owner_ids is_public was_mentioned h =
    elim (Bool-cases (contains owner_ids user)) [
      | inl owner ↦ inl owner
      | inr other ↦ inr (ground (arith, other, h))
    ]

IsKnown-same :
    (world : Security) (m m' : ChannelMessage) → m ≡ m' → IsKnown world m → IsKnown world m'
IsKnown-same world m m' same h = rw (← same) h

IsKnown-lets_in :
    (world : Security) (m : ChannelMessage) (is_public was_mentioned : Bool)
    → lets_in world m.channel m.channel_user_id is_public was_mentioned ≡ true
    → IsKnown world m
IsKnown-lets_in world m is_public was_mentioned h =
    elim (allowed_known world.channels_yaml m.channel m.channel_user_id (owner_ids world m.channel)
      is_public was_mentioned h) [ inl owner ↦ inl owner | inr listed ↦ inr (inl listed) ]

-- A user whom the store does not call untrusted has a pairing.
paired_row :
    (world : Security) (channel user : String)
    → (trust_of_sender world channel user == "untrusted") ≡ false
    → (row : Pairing) × (get world.pairings.pairings (channel, user) ≡ some row)
unfolding classify lookup
paired_row world channel user h =
    elim (Option-cases (get world.pairings.pairings (channel, user))) [
      | inl missing ↦
          let stranger : trust_of_sender world channel user ≡ "untrusted" = rw missing refl in
          let yes =
            (String-eq.same_iff (trust_of_sender world channel user) "untrusted").1 stranger in
          absurd (ground (arith, yes, h))
      | inr found ↦ found
    ]

IsKnown-on_public :
    (world : Security) (config : Config) (m : ChannelMessage)
    → IsTrusted world m
    → config.is_public_channel ≡ true
    → (not config.is_public_channel
        || not (m.trust_level == "untrusted")
        || not (
            is_some (
              allowed world.channels_yaml m.channel m.channel_user_id [] true
                config.was_mentioned)))
      ≡ true
    → IsKnown world m
IsKnown-on_public world config m trusted public h =
    elim (Bool-cases (m.trust_level == "untrusted")) [
      | inr known ↦ inr (inr (paired_row world m.channel m.channel_user_id (rw (← trusted) known)))
      | inl stranger ↦
          (elim (allowed_known world.channels_yaml m.channel m.channel_user_id [] true
            config.was_mentioned (ground (arith, public, stranger, h))) [
              | inl nobody ↦ absurd (ground (arith, nobody))
              | inr listed ↦ inr (inl listed)
            ])
    ]

abbrev pub on_public : Config → Inbound → Bool
on_public config (telegram update) = config.is_public_channel
on_public config (slack event) = config.is_public_channel
on_public config (discord own m) = own.is_public
on_public config (line keeps tokens event now) = config.is_public_channel

-- On a public channel, Telegram, Slack, Discord and LINE give a message only of a sender who is an
-- owner of the channel, or is named in its allowed_senders, or has a pairing for that channel in
-- the pairing store.
pub public_heard-IsKnown :
    (world : Security) (config : Config) (event : Inbound) (m : ChannelMessage)
    → on_public config event ≡ true
    → heard world config event ≡ some m
    → IsKnown world m
unfolding telegram_on_message slack_on_message discord_on_message Line.on_message
public_heard-IsKnown world config (telegram none) m public h = cc
public_heard-IsKnown world config (telegram (some t)) m public h =
    let (gate, same) = passed-eq-some _ _ m h in
    IsKnown-same world (telegram_message world config t) m same (
      IsKnown-lets_in world (telegram_message world config t) true config.was_mentioned
        (ground (arith, public, gate)))
public_heard-IsKnown world config (slack e) m public h =
    let (gate, same) = passed-eq-some _ _ m h in
    IsKnown-same world (slack_message world e) m same
      (inr (inr (paired_row world "slack" (slack_user e) (ground (arith, public, gate)))))
public_heard-IsKnown world config (line keeps tokens e now) m public h =
    let (gate, same) = passed-eq-some _ _ m h in
    IsKnown-same world (Line.message world e) m same
      (IsKnown-on_public world config (Line.message world e) refl public gate)
public_heard-IsKnown world config (discord own d) m public h =
    let (gate, same) = passed-eq-some _ _ m (not_bot (own.ignore_bots && d.author.bot) _ m h) in
    IsKnown-same world (discord_message world d) m same (
      IsKnown-lets_in world (discord_message world d) own.is_public
        (was_mentioned_in own.bot_user_id d.mentions) (ground (arith, public, gate)))
