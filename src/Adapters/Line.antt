-- ===== src/Adapters/Line.antt =====
-- glc/channels/catalogue/line/adapter.py: messages, replies, and the reply tokens that are kept.
-- The transport is an argument: whether it keeps reply tokens itself, and, for each reply, the token
-- that it gives. The monotonic clock is in microseconds. An event that is not well formed raises
-- before anything changes, and is left out.
pub mod Once
use gateway_glc_v.Common.{
  ℕ, ◌+◌, ◌*◌, String, String-eq, ◌==◌, Bool, true, false, not, ◌&&◌, ◌||◌, List, [], ◌∷◌, Option,
  none, some, if◌then◌else◌, sec, leb, is_some,
}
use gateway_glc_v.Common.Text.{Text}
use gateway_glc_v.Common.Dict.{Dict, get, put, remove}
use gateway_glc_v.Allowlist.{allowed}
use gateway_glc_v.Channels.{ChannelMessage}
use gateway_glc_v.Adapters.{Security, Config, trust_of_sender, passed}

pub record LineEvent : Type 0 where
  pub user_id : String
  pub text : Option Text
  pub reply_token : Option Text

-- `_reply_tokens`: user, token, expiry
abbrev pub Tokens : Type 0
Tokens = Dict String (Text × ℕ)

pub data Payload : Type 0 where
  reply_with : Text → Text → Payload
  push_to : String → Text → Payload

-- A text that is not empty counts as true.
abbrev pub truthy : Option Text → Bool
truthy none = false
truthy (some []) = false
truthy (some (c ∷ s)) = true

abbrev pub or_empty : Option Text → Text
or_empty none = []
or_empty (some s) = s

-- `_set_local_reply_token`
abbrev pub set_local_reply_token : Tokens → String → Text → ℕ → Tokens
set_local_reply_token tokens user token now = put tokens user (token, now + 60 * sec)

-- `_consume_local_reply_token`
abbrev pub unexpired : Option (Text × ℕ) → ℕ → Option Text
unexpired none now = none
unexpired (some (token, expires_at)) now = if leb now expires_at then some token else none

abbrev pub consume_local_reply_token : Tokens → String → ℕ → Tokens × Option Text
consume_local_reply_token tokens user now = (remove tokens user, unexpired (get tokens user) now)

-- The token of an event, where the transport does not keep it.
abbrev pub store_token : Bool → Tokens → String → Option Text → ℕ → Tokens
store_token keeps tokens user none now = tokens
store_token keeps tokens user (some []) now = tokens
store_token keeps tokens user (some (c ∷ s)) now =
    if keeps then tokens else set_local_reply_token tokens user (c ∷ s) now

-- `allowed` without the owners, asked for an untrusted sender of a public channel only
abbrev heard : Security → Config → String → Bool
heard world config user =
    not config.is_public_channel
    || not (trust_of_sender world "line" user == "untrusted")
    || not (is_some (allowed world.channels_yaml "line" user [] true config.was_mentioned))

abbrev pub message : Security → LineEvent → ChannelMessage
message world event = record {
  channel = "line";
  channel_user_id = event.user_id;
  text = event.text;
  thread_id = none;
  trust_level = trust_of_sender world "line" event.user_id;
  is_public_channel = false;
  was_mentioned = false;
  provider = none;
}

unfoldable pub on_message :
    Security → Config → Bool → Tokens → LineEvent → ℕ → Tokens × Option ChannelMessage
on_message world config keeps tokens event now = (
  store_token keeps tokens event.user_id event.reply_token now,
  passed (heard world config event.user_id) (message world event),
)

-- The token for a reply: the transport's, or else the one kept here.
abbrev pub reply_token : Tokens → String → Option Text → ℕ → Tokens × Option Text
reply_token tokens user (some token) now = (tokens, some token)
reply_token tokens user none now = consume_local_reply_token tokens user now

abbrev pub payload_of : String → Text → Option Text → Payload
payload_of user text none = push_to user text
payload_of user text (some []) = push_to user text
payload_of user text (some (c ∷ s)) = reply_with (c ∷ s) text

-- `send`, with what `consume_reply_token` of the transport gives
unfoldable pub send : Tokens → String → Option Text → Option Text → ℕ → Tokens × Payload
send tokens user text consumed now =
    let (tokens', token) = reply_token tokens user consumed now in
    (tokens', payload_of user (or_empty text) token)
