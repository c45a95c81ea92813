-- ===== src/Channels/Tests.antt =====
-- Runs of the channel routes on concrete inputs.
use gateway_glc_v.Common.{
  arith, ◌≡◌, ◌≢◌, ◌↔◌, refl, String, String-eq, ◌==◌, true, false, List, [], ◌∷◌, Option, none,
  some, if◌then◌else◌,
}
use gateway_glc_v.Common.Text.{Text, codes, strip, lstrip}
use gateway_glc_v.Allowlist.{ChannelsConfig, not_in_allowed_senders, allowed, entry}
use gateway_glc_v.Audit.{Codec, fresh, verify_chain, intact, append}
use gateway_glc_v.Pairing.{empty, owners, owners_of}
use gateway_glc_v.RateLimits.{new, check, window, limits_for, gc, check_message}
use gateway_glc_v.Channels.{
  ChannelMessage, Detail, Gateway, Frame, dropped, channel_mismatch, echo, echo_of, Received,
  Registry, status_ok, presented, register, owner_ids_of, turn, serve, screen, channel_ws,
  channel_webhook,
}
use gateway_glc_v.Channels.Turn.{
  Admitted, OneRow, event_type_of, turn_echo_exact, turn-OneRow, spoof_closes,
}
use gateway_glc_v.Channels.Session.{
  EchoesDue, socket_answers_due, start, next, received, audit_stays_intact,
}
use gateway_glc_v.Channels.Webhook.{webhook_reply_exact}

abbrev codec : Codec Detail
codec = record {
  sha256 = λ t. codes "h";
  canonical = λ p. codes p.event_type;
  dumps = λ d. codes "{}";
}

abbrev config : ChannelsConfig
config = record {
  defaults = record {
    allowed_senders = some ("ann" ∷ []);
    mention_only_in_public = none;
    enabled = none;
  };
  channels = [];
}

abbrev quiet : Gateway
quiet = record { audit = fresh; limiter = new 30 20; pairings = empty; registered = [] }

abbrev message : String → String → ChannelMessage
message channel user = record {
  channel = channel;
  channel_user_id = user;
  text = some (codes "hi");
  thread_id = none;
  trust_level = "untrusted";
  is_public_channel = false;
  was_mentioned = false;
  provider = none;
}

abbrev parse : String → Option ChannelMessage
parse raw =
    if raw == "a"
    then some (message "sms" "ann")
    else if raw == "b"
    then some (message "sms" "bob")
    else if raw == "x"
    then some (message "web" "ann")
    else none

abbrev texts : List Received
texts =
    (record { raw = "a"; limit_now = 1000000; audit_now = 1000001 })
    ∷ (record { raw = "b"; limit_now = 2000000; audit_now = 2000001 })
    ∷ (record { raw = "x"; limit_now = 3000000; audit_now = 3000001 })
    ∷ (record { raw = "a"; limit_now = 4000000; audit_now = 4000001 })
    ∷ []

abbrev sent : List Frame
sent =
    echo (echo_of (message "sms" "ann"))
    ∷ dropped (not_in_allowed_senders "bob" "sms")
    ∷ channel_mismatch "web" "sms"
    ∷ []

session :
    (channel_ws codec config parse quiet "sms"
      (some (codes "Bearer t0 "))
      none
      (codes "t0")
      texts).1
    ≡ some sent
unfolding channel_ws serve turn screen presented strip lstrip allowed entry check_message check
    window limits_for gc append owners owners_of new
session = refl

socket_answers_due_example :
    (presented (some (codes "Bearer t0 ")) none ≡ some (codes "t0"))
    × EchoesDue codec config parse "sms"
        (owner_ids_of (register quiet "sms") "sms")
        (register quiet "sms")
        texts
        sent
socket_answers_due_example =
    socket_answers_due codec config parse quiet "sms" (some (codes "Bearer t0 ")) none (codes "t0")
      texts sent session

turn_echo_exact_example :
    ((turn codec config "sms" [] quiet (some (message "sms" "ann")) 5 6).1.0
      ≡ echo (echo_of (message "sms" "ann")))
    ↔ ((msg : ChannelMessage) × (some (message "sms" "ann") ≡ some msg)
        × (msg.channel ≡ "sms")
        × Admitted config quiet [] msg 5
        × (echo_of (message "sms" "ann") ≡ echo_of msg))
turn_echo_exact_example =
    turn_echo_exact codec config "sms" [] quiet (some (message "sms" "ann")) 5 6
      (echo_of (message "sms" "ann"))

turn-OneRow_example :
    OneRow quiet
      (turn codec config "sms" [] quiet (some (message "sms" "bob")) 5 6).0
      (message "sms" "bob")
      (event_type_of (turn codec config "sms" [] quiet (some (message "sms" "bob")) 5 6).1.0)
    × ((turn codec config "sms" [] quiet (some (message "sms" "bob")) 5 6).0.pairings ≡ empty)
    × ((turn codec config "sms" [] quiet (some (message "sms" "bob")) 5 6).0.registered ≡ [])
turn-OneRow_example = turn-OneRow codec config "sms" [] quiet (message "sms" "bob") 5 6

web_is_not_sms : ◌≢◌ {A = String} "web" "sms"
web_is_not_sms e = let f : false ≡ true = (String-eq.same_iff "web" "sms").1 e in ground arith

abbrev spoofed : Received
spoofed = record { raw = "x"; limit_now = 1; audit_now = 2 }

spoof_closes_example :
    ((serve codec config parse "sms" [] quiet (spoofed ∷ texts)).1
      ≡ channel_mismatch "web" "sms" ∷ [])
    × ((serve codec config parse "sms" [] quiet (spoofed ∷ texts)).0.limiter ≡ quiet.limiter)
    × ((serve codec config parse "sms" [] quiet (spoofed ∷ texts)).0.pairings ≡ empty)
spoof_closes_example =
    spoof_closes codec config parse "sms" [] quiet spoofed texts (message "web" "ann") refl
      web_is_not_sms

abbrev one_more : Gateway
one_more = (turn codec config "sms" [] quiet (parse "b") 7 8).0

audit_stays_intact_example : verify_chain codec one_more.audit ≡ intact
audit_stays_intact_example =
    audit_stays_intact codec config parse quiet one_more refl
      (next start (received quiet "sms" [] (record { raw = "b"; limit_now = 7; audit_now = 8 })))

abbrev registry : Registry
registry name = if name == "sms" then some (λ raw. some (message "sms" "ann")) else none

webhook_reply_exact_example :
    ((channel_webhook codec config registry quiet "sms" [] 5 6).1
      ≡ status_ok (some (echo_of (message "sms" "ann"))))
    ↔ ((on_message : Text → Option ChannelMessage) × (registry "sms" ≡ some on_message)
        × (msg : ChannelMessage) × (on_message [] ≡ some msg)
        × Admitted config quiet (owner_ids_of quiet "sms") msg 5
        × (echo_of (message "sms" "ann") ≡ echo_of msg))
webhook_reply_exact_example =
    webhook_reply_exact codec config registry quiet "sms" [] 5 6 (echo_of (message "sms" "ann"))
