-- ===== src/Channels/Webhook.antt =====
-- The two webhook routes: when a reply is sent, and when a challenge is given back.
use gateway_glc_v.Common.{
  ℕ, ◌≡◌, ◌↔◌, refl, String, String-eq, Option, none, some, arith, Option-cases, inl, inr,
}
use gateway_glc_v.Common.Text.{Text, codes, text_beq_iff}
use gateway_glc_v.Allowlist.{ChannelsConfig, allowed}
use gateway_glc_v.Audit.{Codec}
use gateway_glc_v.RateLimits.{check_message}
use gateway_glc_v.Channels.{
  ChannelMessage, ChannelReply, Detail, Gateway, echo_of, screen, delivered, status_ok, Registry,
  owner_ids_of, or_empty, channel_webhook, channel_webhook_verify,
}
use gateway_glc_v.Channels.Turn.{Admitted}

module _ (codec : Codec Detail) (config : ChannelsConfig) where
  delivered_exact :
      (g : Gateway) (name : String) (m : Option ChannelMessage) (limit_now now : ℕ)
      (r : ChannelReply)
      → ((delivered codec config g name m limit_now now).1 ≡ status_ok (some r)) ↔ (
          (msg : ChannelMessage) × (m ≡ some msg)
          × Admitted config g (owner_ids_of g name) msg limit_now
          × (r ≡ echo_of msg))
  unfolding screen
  delivered_exact g name none limit_now now r = (λ h. cc, λ (msg, e, _, _). cc)
  delivered_exact g name (some m) limit_now now r =
      elim (Option-cases (
        allowed config m.channel m.channel_user_id (owner_ids_of g name) m.is_public_channel
          m.was_mentioned)) [
            | inl p ↦
                elim (Option-cases
                  (check_message g.limiter m.channel m.channel_user_id limit_now).1) [
                    | inl q ↦ rw (p, q) (λ h. (m, refl, (p, q), cc), λ (msg, e, _, er). cc)
                    | inr (w, q) ↦ rw (p, q) (λ h. cc, λ (msg, e, (_, q'), _). cc)
                  ]
            | inr (w, p) ↦ rw p (λ h. cc, λ (msg, e, (p', _), _). cc)
          ]

  -- The webhook sends a reply just if the channel has an adapter, the adapter makes a message of the
  -- request, and the allowlist, with the owners of the route's channel, and the limiter let it in.
  pub webhook_reply_exact :
      (registry : Registry) (g : Gateway) (name : String) (raw : Text) (limit_now now : ℕ)
      (r : ChannelReply)
      → ((channel_webhook codec config registry g name raw limit_now now).1 ≡ status_ok (some r))
        ↔ ((on_message : Text → Option ChannelMessage) × (registry name ≡ some on_message)
            × (msg : ChannelMessage) × (on_message raw ≡ some msg)
            × Admitted config g (owner_ids_of g name) msg limit_now
            × (r ≡ echo_of msg))
  unfolding channel_webhook
  webhook_reply_exact registry g name raw limit_now now r = elim (Option-cases (registry name)) [
    | inl p ↦ rw (p, channel_webhook) (λ h. cc, λ (f, e, _, _, _, _). cc)
    | inr (f, p) ↦
        let d = delivered_exact g name (f raw) limit_now now r in
        rw (p, channel_webhook)
          (
            λ h. (let (m, em, ad, er) = d.0 h in (f, refl, m, em, ad, er)),
            λ (f', e, m, em, ad, er). d.1 (m, cc, ad, er),
          )
  ]

-- The challenge is given back just if the mode is "subscribe" and the token is the one of the
-- environment, where an absent token and an unset variable both count as the empty text.
pub webhook_verify_exact :
    (mode token challenge expected : Option Text) (c : Text)
    → (channel_webhook_verify mode token challenge expected ≡ some c) ↔ (
        (or_empty mode ≡ codes "subscribe")
        × (or_empty token ≡ or_empty expected)
        × (c ≡ or_empty challenge))
unfolding channel_webhook_verify
webhook_verify_exact mode token challenge expected c = ground (
  arith,
  text_beq_iff (or_empty mode) (codes "subscribe"),
  text_beq_iff (or_empty token) (or_empty expected),
)
