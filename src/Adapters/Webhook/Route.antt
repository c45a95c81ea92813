-- ===== src/Adapters/Webhook/Route.antt =====
-- glc/routes/channels.py with the webhook adapter. The route is given what the adapter returns;
-- where the adapter raises, which the server answers with an error, it is given no message.
use gateway_glc_v.Common.{ℕ, ◌≡◌, ◌∙◌, sym, ap, List, Option, none, some, Result, ok, err}
use gateway_glc_v.Common.Text.{Text}
use gateway_glc_v.Common.Dict.{Dict}
use gateway_glc_v.Allowlist.{ChannelsConfig}
use gateway_glc_v.Audit.{Codec}
use gateway_glc_v.Channels.{
  ChannelMessage, ChannelReply, Detail, Gateway, Registry, status_ok, echo_of, channel_webhook,
}
use gateway_glc_v.Channels.Webhook.{webhook_reply_exact}
use gateway_glc_v.Adapters.{Security, Config}
use gateway_glc_v.Adapters.Webhook.{
  Python, Raw, request, Raised, WebhookInbound, header, header_name, message, on_message,
}
use gateway_glc_v.Adapters.Webhook.Signed.{Signed, message-Signed}

abbrev pub returned : Result Raised (Option ChannelMessage) → Option ChannelMessage
returned (err e) = none
returned (ok o) = o

returned-eq-some :
    (r : Result Raised (Option ChannelMessage)) (m : ChannelMessage)
    → returned r ≡ some m
    → r ≡ ok (some m)
returned-eq-some (err e) m h = cc
returned-eq-some (ok o) m h = ap ok h

abbrev from_some : Option (Text → Option ChannelMessage) → Text → Option ChannelMessage
from_some none raw = none
from_some (some f) raw = f raw

module _ (py : Python) (world : Security) (config : Config) (secret : Option Text) (clock : ℕ)
    (read : Text → Raw) where
  -- The adapter as the registry has it, for a request at a reading of the clock.
  abbrev pub adapter : Text → Option ChannelMessage
  adapter raw = returned (on_message py world config secret clock (read raw))

  -- Where the registry's adapter of the channel "webhook" is the webhook adapter, the route sends a
  -- reply only to a request whose signature header has, under the shared secret, the HMAC of its
  -- own timestamp, within 300 seconds of the clock, and of this very body, and the reply is the echo
  -- of the message that the body states.
  pub reply-Signed :
      (codec : Codec Detail) (yaml : ChannelsConfig) (registry : Registry) (g : Gateway)
      (raw : Text) (limit_now now : ℕ) (r : ChannelReply)
      → registry "webhook" ≡ some adapter
      → (channel_webhook codec yaml registry g "webhook" raw limit_now now).1 ≡ status_ok (some r)
      → (body : List ℕ) × (headers : Dict Text Text) × (key : Text) × (sig : Text)
        × (inbound : WebhookInbound) × (read raw ≡ request body headers)
        × (secret ≡ some key)
        × (header headers header_name ≡ some sig)
        × Signed py key body clock sig
        × (py.model_validate_json body ≡ some inbound)
        × (r ≡ echo_of (message world config inbound))
  reply-Signed codec yaml registry g raw limit_now now r here sent =
      let (f, known, msg, made, admitted, echoed) =
        (webhook_reply_exact codec yaml registry g "webhook" raw limit_now now r).0 sent in
      let f_is : some f ≡ some adapter = sym known ∙ here in
      let same : f raw ≡ adapter raw = ap (λ o. from_some o raw) f_is in
      let heard =
        returned-eq-some (on_message py world config secret clock (read raw)) msg
          (sym same ∙ made) in
      let (
        body, headers, key, sig, inbound, raw_is, has_key, has_sig, signed, parsed, m_is, gated,
      ) =
        message-Signed py world config secret clock (read raw) msg heard in
      (
        body,
        headers,
        key,
        sig,
        inbound,
        raw_is,
        has_key,
        has_sig,
        signed,
        parsed,
        echoed ∙ ap echo_of m_is,
      )
