-- ===== src/Channels.antt =====
-- glc/routes/channels.py: the WebSocket of an adapter, and the two webhook routes.
-- JSON with the validation of an envelope, the adapters and the hash of the audit log are arguments.
pub mod Turn
pub mod Session
pub mod Webhook
mod Tests
use gateway_glc_v.Common.{
  ℕ, ◌≡◌, String, String-eq, ◌==◌, Bool, true, false, not, List, [], ◌∷◌, ◌++◌, map, Option, none,
  some, if◌then◌else◌, contains,
}
use gateway_glc_v.Common.Dict.{Dict, get}
use gateway_glc_v.Common.Text.{Text, codes, starts_with, remove_prefix, strip, text_beq, text_eq}
use gateway_glc_v.Allowlist.{ChannelsConfig, Refusal, allowed}
use gateway_glc_v.Audit.{AuditDb, Event, Codec, Param, absent, value, append}
use gateway_glc_v.Pairing.{PairingStore, PairingRecord, owners}
use gateway_glc_v.RateLimits.{RateLimiter, Exceeded, check_message}

-- The parts of `ChannelMessage` that the routes read; the two flags and `provider` are its metadata.
pub record ChannelMessage : Type 0 where
  pub channel : String
  pub channel_user_id : String
  pub text : Option Text
  pub thread_id : Option String
  pub trust_level : String
  pub is_public_channel : Bool
  pub was_mentioned : Bool
  pub provider : Option String

pub record ChannelReply : Type 0 where
  pub channel : String
  pub channel_user_id : String
  pub text : Text
  pub thread_id : Option String

-- The dictionaries that the routes hand to the audit log.
pub data Detail : Type 0 where
  spoof : String → String → Detail
  dropped_for : Refusal → Detail
  limited_for : Exceeded → Detail
  inbound : Option Text → Option String → Detail
  inbound_from : Option Text → Option String → Option String → Detail

-- What the routes share: the audit log, the limiter, the pairings and the list of channels.
pub record Gateway : Type 0 where
  pub audit : AuditDb
  pub limiter : RateLimiter
  pub pairings : PairingStore
  pub registered : List String

-- What is sent on the socket.
pub data Frame : Type 0 where
  invalid_envelope : Frame
  channel_mismatch : String → String → Frame
  dropped : Refusal → Frame
  too_many : Exceeded → Frame
  echo : ChannelReply → Frame

-- A text that is received, and the times that the limiter and the audit log read for it.
pub record Received : Type 0 where
  pub raw : String
  pub limit_now : ℕ
  pub audit_now : ℕ

abbrev pub or_empty : Option Text → Text
or_empty none = []
or_empty (some t) = t

-- `header_auth.removeprefix("Bearer ").strip()`, else the `token` of the query; an empty one is none
abbrev query_token : Option Text → Option Text
query_token none = none
query_token (some []) = none
query_token (some (c ∷ t)) = some (c ∷ t)

unfoldable pub presented : Option Text → Option Text → Option Text
presented none token = query_token token
presented (some h) token =
    if starts_with h (codes "Bearer ")
    then some (strip (remove_prefix h (codes "Bearer ")))
    else query_token token

abbrev pub is_token : Option Text → Text → Bool
is_token none expected = false
is_token (some t) expected = t == expected

abbrev pub register : Gateway → String → Gateway
register g name =
    if contains g.registered name then g else record g { registered = g.registered ++ name ∷ [] }

-- the identifiers of the owners that a route hands to `allowed`
abbrev pub owner_ids_of : Gateway → String → List String
owner_ids_of g name = map (λ p. p.channel_user_id) (owners g.pairings (some name))

abbrev pub event_of : ChannelMessage → String → String → Param Detail → Param Detail → Event Detail
event_of m channel event_type params result = record {
  channel = channel;
  channel_user_id = m.channel_user_id;
  trust_level = m.trust_level;
  event_type = event_type;
  session_id = none;
  tool = none;
  policy_verdict = none;
  params = params;
  result = result;
}

abbrev pub echo_of : ChannelMessage → ChannelReply
echo_of m = record {
  channel = m.channel;
  channel_user_id = m.channel_user_id;
  text = codes "[glc echo] " ++ or_empty m.text;
  thread_id = m.thread_id;
}

-- What a route does with a message once it has a verdict.
pub data Verdict : Type 0 where
  refused : Refusal → Verdict
  limited : Exceeded → Verdict
  admitted : Verdict

abbrev pub frame_of : ChannelMessage → Gateway × Verdict → Gateway × (Frame × Bool)
frame_of m (g, refused why) = (g, (dropped why, true))
frame_of m (g, limited why) = (g, (too_many why, true))
frame_of m (g, admitted) = (g, (echo (echo_of m), true))

-- The answer of the webhook route, with the reply that is sent, if any.
pub data WebhookAnswer : Type 0 where
  unknown_channel : WebhookAnswer
  status_ok : Option ChannelReply → WebhookAnswer
  status_429 : Exceeded → WebhookAnswer

abbrev pub answer_of : ChannelMessage → Gateway × Verdict → Gateway × WebhookAnswer
answer_of m (g, refused why) = (g, status_ok none)
answer_of m (g, limited why) = (g, status_429 why)
answer_of m (g, admitted) = (g, status_ok (some (echo_of m)))

abbrev pub Registry : Type 0
Registry = String → Option (Text → Option ChannelMessage)

module _ (codec : Codec Detail) (config : ChannelsConfig) where
  abbrev pub audited : Gateway → Event Detail → ℕ → Gateway
  audited g e now = record g { audit = (append codec g.audit e now).0 }

  abbrev rate_step :
      Gateway
      → ChannelMessage
      → RateLimiter × Option Exceeded
      → Param Detail
      → ℕ
      → Gateway × Verdict
  rate_step g m (limiter, none) params now = (
    audited (record g { limiter = limiter }) (event_of m m.channel "inbound_message" params absent)
        now,
    admitted,
  )
  rate_step g m (limiter, some why) params now = (
    audited (record g { limiter = limiter })
        (event_of m m.channel "rate_limit" absent (value (limited_for why))) now,
    limited why,
  )

  abbrev allow_step :
      Gateway → ChannelMessage → Option Refusal → Param Detail → ℕ → ℕ → Gateway × Verdict
  allow_step g m (some why) params limit_now now = (
    audited g (event_of m m.channel "allowlist_drop" absent (value (dropped_for why))) now,
    refused why,
  )
  allow_step g m none params limit_now now =
      rate_step g m (check_message g.limiter m.channel m.channel_user_id limit_now) params now

  -- the tests that the two routes share: the allowlist, then the limiter, with one audit row each way
  unfoldable pub screen :
      Gateway → List String → ChannelMessage → Param Detail → ℕ → ℕ → Gateway × Verdict
  screen g owner_ids m params limit_now now =
      allow_step g m
        (allowed config m.channel m.channel_user_id owner_ids m.is_public_channel m.was_mentioned)
        params limit_now now

  -- One turn of the loop of `channel_ws`: the text that is sent, and whether the loop goes on.
  unfoldable pub turn :
      String → List String → Gateway → Option ChannelMessage → ℕ → ℕ → Gateway × (Frame × Bool)
  turn name owner_ids g none limit_now now = (g, (invalid_envelope, true))
  turn name owner_ids g (some m) limit_now now =
      let answer =
        frame_of m (screen g owner_ids m (value (inbound m.text m.thread_id)) limit_now now) in
      if not (m.channel == name)
      then (
        audited g (event_of m name "channel_spoof_attempt" absent (value (spoof name m.channel)))
            now,
        (channel_mismatch m.channel name, false),
      )
      else answer

  module _ (parse : String → Option ChannelMessage) where
    -- The loop, over what the adapter sends until it hangs up.
    unfoldable pub serve : String → List String → Gateway → List Received → Gateway × List Frame
    serve name owner_ids g [] = (g, [])
    serve name owner_ids g (r ∷ rs) =
        let (g', (f, go_on)) = turn name owner_ids g (parse r.raw) r.limit_now r.audit_now in
        let (g'', fs) = serve name owner_ids g' rs in if go_on then (g'', f ∷ fs) else (g', f ∷ [])

    -- `channel_ws`; the owners are read once, and `none` is a socket that was never accepted
    unfoldable pub channel_ws :
        Gateway
        → String
        → Option Text
        → Option Text
        → Text
        → List Received
        → Gateway × Option (List Frame)
    channel_ws g name header token expected rs =
        let g0 = register g name in
        let (g', fs) = serve name (owner_ids_of g0 name) g0 rs in
        if is_token (presented header token) expected then (g', some fs) else (g, none)

  abbrev pub delivered : Gateway → String → Option ChannelMessage → ℕ → ℕ → Gateway × WebhookAnswer
  delivered g name none limit_now now = (g, status_ok none)
  delivered g name (some m) limit_now now = answer_of m (
      screen g (owner_ids_of g name) m (value (inbound_from m.text m.thread_id m.provider))
        limit_now now)

  -- `channel_webhook`
  unfoldable pub channel_webhook :
      Registry → Gateway → String → Text → ℕ → ℕ → Gateway × WebhookAnswer
  channel_webhook registry g name raw limit_now now = elim (registry name) [
    | none ↦ (g, unknown_channel)
    | some on_message ↦ delivered g name (on_message raw) limit_now now
  ]

-- `channel_webhook_verify`, for ASCII tokens: `expected` is `<NAME>_VERIFY_TOKEN`; `none` is a 403
unfoldable pub channel_webhook_verify :
    Option Text → Option Text → Option Text → Option Text → Option Text
channel_webhook_verify mode token challenge expected =
    if text_beq (or_empty mode) (codes "subscribe")
    then (if text_beq (or_empty token) (or_empty expected) then some (or_empty challenge) else none)
    else none
