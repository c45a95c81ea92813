-- ===== src/Adapters/Tests.antt =====
-- Events for the adapters of a small world: one owner on every channel, and one listed sender.
use gateway_glc_v.Common.{
  ℕ, zero, suc, ◌*◌, ◌≤◌, ◌≡◌, refl, String-eq, pair_eq, true, false, ◌&&◌, List, [], ◌∷◌, ◌++◌,
  Option, none, some, leb, ok, arith, All, sec, ap, ◌==◌, if◌then◌else◌,
}
use gateway_glc_v.Common.Text.{Text, codes, text_eq, strip}
use gateway_glc_v.Common.Numbers.{decimal, ℤ, pos, negsuc, parse_int}
use gateway_glc_v.Common.Numbers.RoundTrip.{parse_int-decimal}
use gateway_glc_v.Common.Dict.{Dict, get}
use gateway_glc_v.Capability.Tokens.{IsHex}
use gateway_glc_v.Allowlist.{ChannelsConfig, allowed, entry}
use gateway_glc_v.Pairing.{Pairing, classify, lookup, owners}
use gateway_glc_v.Pairing.Provenance.{Op, force_owner, after, Granted}
use gateway_glc_v.Adapters.{Security, Config}
use gateway_glc_v.Adapters.Webhook.{
  Python, Raw, WebhookInbound, request, header, header_name, overflows, message, accepted,
  on_message,
}
use gateway_glc_v.Adapters.Webhook.Heard.{signature_header, signed_request_heard}
use gateway_glc_v.Adapters.Webhook.Signed.{Signed, gate, message-Signed}
use gateway_glc_v.Adapters.Line.{LineEvent, on_message as line_on_message, send}
use gateway_glc_v.Adapters.Line.Once.{hears, says, run, replies, offers, tokens_once}
use gateway_glc_v.Adapters.Chats.{TelegramMessage, telegram_on_message, telegram_message}
use gateway_glc_v.Adapters.TwilioSms.{TwilioInboundForm, detect_keyword, stop}
use gateway_glc_v.Adapters.TwilioSms.Artifacts.{prefix, is_sha16, get_bytes, put_blob, validate_ref}
use gateway_glc_v.Adapters.TwilioSms.Artifacts.Kept.{puts, get_bytes_named, get_bytes-put_blob}
use gateway_glc_v.Adapters.TwilioSms.Artifacts.Kept as Kept
use gateway_glc_v.Adapters.Trusted.{
  telegram, heard, owner_message-Granted, IsKnown, public_heard-IsKnown,
}
use gateway_glc_v.Audit.{Codec, fresh}
use gateway_glc_v.RateLimits.{new, check_message, check, window, limits_for, gc}
use gateway_glc_v.Channels.{
  Detail, Gateway, Registry, status_ok, echo_of, channel_webhook, owner_ids_of,
}
use gateway_glc_v.Channels.Webhook.{webhook_reply_exact}
use gateway_glc_v.Adapters.Webhook.Route.{adapter, returned, reply-Signed}

abbrev pairing_calls : List Op
pairing_calls = force_owner "telegram" "ann" "Ann" 5 ∷ force_owner "webhook" "ann" "Ann" 4 ∷ []

abbrev yaml : ChannelsConfig
yaml = record {
  defaults = record { allowed_senders = none; mention_only_in_public = none; enabled = none };
  channels = [];
}

abbrev world : Security
world = record { pairings = after pairing_calls; channels_yaml = yaml }

abbrev private_config : Config
private_config = record { is_public_channel = false; was_mentioned = false }

abbrev public_config : Config
public_config = record { is_public_channel = true; was_mentioned = true }

-- A signature of 64 equal digits.
abbrev many : ℕ → Text
many zero = []
many (suc n) = b'a' ∷ many n

many-IsHex : (n : ℕ) → All IsHex (many n)
many-IsHex zero = tt
many-IsHex (suc n) = (refl, many-IsHex n)

abbrev natural : Option ℤ → Option ℕ
natural none = none
natural (some (pos n)) = some n
natural (some (negsuc n)) = none

abbrev inbound : WebhookInbound
inbound = record {
  sender_id = "ann";
  sender_handle = "Ann";
  text = some (codes "hi");
  metadata = [];
}

abbrev python : Python
python = record {
  decode = λ body. body;
  hmac = λ key msg. many 64;
  is_digit = λ c. leb b'0' c && leb c b'9';
  int = λ s. natural (parse_int s);
  model_validate_json = λ body. some inbound;
}

reads : (n : ℕ) → natural (parse_int (decimal n)) ≡ some n
reads n = rw (parse_int-decimal n) refl

abbrev headers : Dict Text Text
headers =
    (codes "Host", codes "localhost")
    ∷ (codes "X-Webhook-Signature", signature_header 1000 (many 64))
    ∷ []

a_second : overflows 1000 ≡ false
unfolding overflows
a_second = refl

signed_request_heard_example :
    on_message python world private_config
      (some (codes "k"))
      (1299 * sec)
      (request (codes "{}") headers)
    ≡ ok (accepted world private_config (some inbound))
signed_request_heard_example =
    signed_request_heard python (λ c h. ground arith) (λ key msg. (many-IsHex 64, refl)) world
      private_config b'k' [] (codes "{}") 1000 (1299 * sec) (codes "X-Webhook-Signature")
      ((codes "Host", codes "localhost") ∷ []) [] refl (refl, tt) (reads 1000) a_second
      (ground arith) (ground arith)

message-Signed_example :
    (body : List ℕ) × (hs : Dict Text Text) × (key : Text) × (sig : Text) × (i : WebhookInbound)
    × (request (codes "{}") headers ≡ request body hs)
    × (some (codes "k") ≡ some key)
    × (header hs header_name ≡ some sig)
    × Signed python key body (1299 * sec) sig
    × (python.model_validate_json body ≡ some i)
    × (message world private_config inbound ≡ message world private_config i)
    × (gate world private_config i ≡ true)
message-Signed_example =
    message-Signed python world private_config (some (codes "k")) (1299 * sec)
      (request (codes "{}") headers) (message world private_config inbound)
      signed_request_heard_example

abbrev codec : Codec Detail
codec = record {
  sha256 = λ t. codes "h";
  canonical = λ p. codes p.event_type;
  dumps = λ d. codes "{}";
}

abbrev gateway : Gateway
gateway = record {
  audit = fresh;
  limiter = new 30 20;
  pairings = after pairing_calls;
  registered = [];
}

abbrev read : Text → Raw
read raw = request raw headers

abbrev registry : Registry
registry name =
    if name == "webhook"
    then some (adapter python world private_config (some (codes "k")) (1299 * sec) read)
    else none

ann_let_in : allowed yaml "webhook" "ann" (owner_ids_of gateway "webhook") false false ≡ none
unfolding allowed entry after owners
ann_let_in = refl

ann_in_time : (check_message gateway.limiter "webhook" "ann" 5).1 ≡ none
unfolding check_message check window limits_for gc new
ann_in_time = refl

reply_sent :
    (channel_webhook codec yaml registry gateway "webhook" (codes "{}") 5 6).1
    ≡ status_ok (some (echo_of (message world private_config inbound)))
reply_sent =
    (webhook_reply_exact codec yaml registry gateway "webhook" (codes "{}") 5 6
        (echo_of (message world private_config inbound))).1
      (
        adapter python world private_config (some (codes "k")) (1299 * sec) read,
        refl,
        message world private_config inbound,
        ap returned signed_request_heard_example,
        (ann_let_in, ann_in_time),
        refl,
      )

reply-Signed_example :
    (body : List ℕ) × (hs : Dict Text Text) × (key : Text) × (sig : Text) × (i : WebhookInbound)
    × (request (codes "{}") headers ≡ request body hs)
    × (some (codes "k") ≡ some key)
    × (header hs header_name ≡ some sig)
    × Signed python key body (1299 * sec) sig
    × (python.model_validate_json body ≡ some i)
    × (echo_of (message world private_config inbound) ≡ echo_of (message world private_config i))
reply-Signed_example =
    reply-Signed python world private_config (some (codes "k")) (1299 * sec) read codec yaml
      registry gateway (codes "{}") 5 6 (echo_of (message world private_config inbound)) refl
      reply_sent

abbrev photo_free : TelegramMessage
photo_free = record {
  chat_id = "7";
  sender_id = some "ann";
  text = some (codes "hi");
  caption = none;
  photo = [];
}

update_heard :
    heard world private_config (telegram (some photo_free))
    ≡ some (telegram_message world private_config photo_free)
unfolding telegram_on_message
update_heard = refl

ann_owns : (telegram_message world private_config photo_free).trust_level ≡ "owner_paired"
unfolding after classify lookup
ann_owns = refl

owner_message-Granted_example :
    (row : Pairing) × (row.trust_level ≡ "owner_paired")
    × (get (after pairing_calls).pairings ("telegram", "ann") ≡ some row)
    × Granted pairing_calls ("telegram", "ann") row
owner_message-Granted_example =
    owner_message-Granted pairing_calls yaml private_config (telegram (some photo_free))
      (telegram_message world private_config photo_free) update_heard ann_owns

public_update_heard :
    heard world public_config (telegram (some photo_free))
    ≡ some (telegram_message world public_config photo_free)
unfolding telegram_on_message allowed entry after owners
public_update_heard = refl

public_heard-IsKnown_example : IsKnown world (telegram_message world public_config photo_free)
public_heard-IsKnown_example =
    public_heard-IsKnown world public_config (telegram (some photo_free))
      (telegram_message world public_config photo_free) refl public_update_heard

abbrev line_event : LineEvent
line_event = record { user_id = "bob"; text = none; reply_token = some (codes "t1") }

tokens_once_example :
    replies world private_config (codes "t1") (
      run world private_config []
        (hears line_event 0 ∷ says "bob" none sec ∷ says "bob" none sec ∷ []))
    ≤ offers world private_config
        (codes "t1")
        (hears line_event 0 ∷ says "bob" none sec ∷ says "bob" none sec ∷ [])
tokens_once_example =
    tokens_once world private_config (codes "t1")
      (hears line_event 0 ∷ says "bob" none sec ∷ says "bob" none sec ∷ [])

-- The first reply is free, the second is pushed.
one_free_reply :
    replies world private_config (codes "t1") (
      run world private_config []
        (hears line_event 0 ∷ says "bob" none sec ∷ says "bob" none sec ∷ []))
    ≡ 1
unfolding line_on_message send
one_free_reply = refl

stop_detected : detect_keyword (λ s. s) (codes " STOP ") ≡ some stop
unfolding detect_keyword strip
stop_detected = refl

abbrev mms : TwilioInboundForm
mms = record {
  from_phone = "+1";
  to_phone = codes "+2";
  body = [];
  message_sid = [];
  account_sid = [];
  num_media = 2;
  extra = (codes "MediaUrl0", codes "http://m/0") ∷ (codes "MediaUrl1", codes "http://m/1") ∷ [];
}

-- A hash of 16 equal digits.
abbrev sha16 : List ℕ → Text
sha16 blob = many 16

artifact_read :
    get_bytes (Kept.after sha16 (puts (codes "pic") [] 0 ∷ [])) (prefix ++ many 16)
    ≡ some (codes "pic")
unfolding get_bytes put_blob validate_ref
artifact_read = refl

get_bytes_named_example :
    (prefix ++ many 16 ≡ prefix ++ sha16 (codes "pic")) × (is_sha16 (sha16 (codes "pic")) ≡ true)
get_bytes_named_example =
    get_bytes_named sha16 (puts (codes "pic") [] 0 ∷ []) (prefix ++ many 16) (codes "pic")
      artifact_read

get_bytes-put_blob_example :
    let (s, ref) = put_blob sha16 (Kept.after sha16 []) (codes "pic") [] 0 in
    (b : List ℕ) × (get_bytes s ref ≡ some b) × (sha16 b ≡ sha16 (codes "pic"))
get_bytes-put_blob_example = get_bytes-put_blob sha16 [] (codes "pic") [] 0 refl
