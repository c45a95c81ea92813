-- ===== src/Adapters/Chats.antt =====
-- The adapters of Telegram, Slack and Discord: who is heard, and what message is made.
-- The validation of an event, the handles, the arrival times and the files are left out; the
-- records have what decides on a message.
use gateway_glc_v.Common.{
  ℕ, ◌*◌, String, String-eq, ◌==◌, Bool, true, false, not, ◌&&◌, ◌||◌, List, [], ◌∷◌, Option, none,
  some, if◌then◌else◌, ltb,
}
use gateway_glc_v.Common.Text.{Text}
use gateway_glc_v.Channels.{ChannelMessage}
use gateway_glc_v.Adapters.{Security, Config, trust_of_sender, lets_in, passed}

abbrev pub message_from :
    Security → String → String → Option Text → Option String → Bool → Bool → ChannelMessage
message_from world channel user text thread is_public was_mentioned = record {
  channel = channel;
  channel_user_id = user;
  text = text;
  thread_id = thread;
  trust_level = trust_of_sender world channel user;
  is_public_channel = is_public;
  was_mentioned = was_mentioned;
  provider = none;
}

-- `a or b` of two texts that may be None
abbrev or_else : Option Text → Option Text → Option Text
or_else none b = b
or_else (some []) b = b
or_else (some (c ∷ s)) b = some (c ∷ s)

-- Telegram: `str` of the numbers is done by the caller
pub record TelegramPhotoSize : Type 0 where
  pub file_id : Text
  pub width : ℕ
  pub height : ℕ
  pub file_size : Option ℕ

pub record TelegramMessage : Type 0 where
  pub chat_id : String
  pub sender_id : Option String
  pub text : Option Text
  pub caption : Option Text
  pub photo : List TelegramPhotoSize

abbrev pub telegram_user : TelegramMessage → String
telegram_user m = elim m.sender_id [ none ↦ m.chat_id | some u ↦ u ]

abbrev pub telegram_message : Security → Config → TelegramMessage → ChannelMessage
telegram_message world config m =
    message_from world "telegram" (telegram_user m) (or_else m.text m.caption) none
      config.is_public_channel config.was_mentioned

unfoldable pub telegram_on_message :
    Security → Config → Option TelegramMessage → Option ChannelMessage
telegram_on_message world config none = none
telegram_on_message world config (some m) =
    passed
      (not config.is_public_channel
        || lets_in world "telegram" (telegram_user m) true config.was_mentioned)
      (telegram_message world config m)

-- `p.file_size or (p.width * p.height)`
abbrev pub weight : TelegramPhotoSize → ℕ
weight p = elim p.file_size [
  | none ↦ p.width * p.height
  | some n ↦ if ltb 0 n then n else p.width * p.height
]

-- `max(photo, key=...)`: the first of the heaviest
abbrev heavier : TelegramPhotoSize → List TelegramPhotoSize → TelegramPhotoSize
heavier best [] = best
heavier best (p ∷ ps) = if ltb (weight best) (weight p) then heavier p ps else heavier best ps

unfoldable pub largest : List TelegramPhotoSize → Option TelegramPhotoSize
largest [] = none
largest (p ∷ ps) = some (heavier p ps)

-- Slack: `event.get(...)` with the defaults of the code; an explicit null is `some none`. An event
-- with a null user, which makes no message, is left out.
pub record SlackEvent : Type 0 where
  pub user : Option String
  pub text : Option (Option Text)
  pub thread_ts : Option String

abbrev pub slack_user : SlackEvent → String
slack_user e = elim e.user [ none ↦ "" | some u ↦ u ]

abbrev pub slack_message : Security → SlackEvent → ChannelMessage
slack_message world e =
    message_from world "slack" (slack_user e) (elim e.text [ none ↦ some [] | some t ↦ t ])
      e.thread_ts false false

unfoldable pub slack_on_message : Security → Config → SlackEvent → Option ChannelMessage
slack_on_message world config e =
    passed
      (not
        (config.is_public_channel && (trust_of_sender world "slack" (slack_user e) == "untrusted")))
      (slack_message world e)

-- Discord
pub record DiscordUser : Type 0 where
  pub id : String
  pub bot : Bool

pub record DiscordMessage : Type 0 where
  pub channel_id : String
  pub content : Text
  pub author : DiscordUser
  pub mentions : List DiscordUser

pub record DiscordConfig : Type 0 where
  pub is_public : Bool
  pub ignore_bots : Bool
  pub enforce_allowlist_in_dm : Bool
  pub bot_user_id : Option String

abbrev mentions_id : String → List DiscordUser → Bool
mentions_id bot [] = false
mentions_id bot (m ∷ ms) = (m.id == bot) || mentions_id bot ms

-- `bool(bot_id) and any(m.id == str(bot_id) for m in msg.mentions)`
abbrev pub was_mentioned_in : Option String → List DiscordUser → Bool
was_mentioned_in none ms = false
was_mentioned_in (some bot) ms = not (bot == "") && mentions_id bot ms

abbrev pub discord_message : Security → DiscordMessage → ChannelMessage
discord_message world m =
    message_from world "discord" m.author.id (some m.content) (some m.channel_id) false false

unfoldable pub discord_on_message :
    Security → DiscordConfig → DiscordMessage → Option ChannelMessage
discord_on_message world config m =
    let mentioned = was_mentioned_in config.bot_user_id m.mentions in
    if config.ignore_bots && m.author.bot
    then none
    else passed
        (not (config.is_public || config.enforce_allowlist_in_dm)
          || lets_in world "discord" m.author.id config.is_public mentioned)
        (discord_message world m)
