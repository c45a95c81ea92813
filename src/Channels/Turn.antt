-- ===== src/Channels/Turn.antt =====
-- One message on a socket: what is sent back, what is recorded, and what stays as it was.
use gateway_glc_v.Common.{
  ℕ, ◌≡◌, ◌≢◌, ◌↔◌, refl, String, String-eq, ◌==◌, false, List, [], ◌∷◌, ◌++◌, Option, none, some,
  arith, Option-cases, Bool-cases, inl, inr, beq_ne,
}
use gateway_glc_v.Allowlist.{ChannelsConfig, allowed}
use gateway_glc_v.Audit.{Row, Codec, append}
use gateway_glc_v.RateLimits.{check_message}
use gateway_glc_v.Channels.{
  ChannelMessage, ChannelReply, Detail, Gateway, Frame, invalid_envelope, channel_mismatch, dropped,
  too_many, echo, Received, echo_of, screen, turn, serve,
}

-- The allowlist and the limiter let the message in.
abbrev pub Admitted : ChannelsConfig → Gateway → List String → ChannelMessage → ℕ → Type 0
Admitted config g owner_ids m limit_now =
    (allowed config m.channel m.channel_user_id owner_ids m.is_public_channel m.was_mentioned
      ≡ none)
    × ((check_message g.limiter m.channel m.channel_user_id limit_now).1 ≡ none)

abbrev pub event_type_of : Frame → String
event_type_of invalid_envelope = ""
event_type_of (channel_mismatch _ _) = "channel_spoof_attempt"
event_type_of (dropped _) = "allowlist_drop"
event_type_of (too_many _) = "rate_limit"
event_type_of (echo _) = "inbound_message"

-- The log has one more row, about this message and this kind of event.
abbrev pub OneRow : Gateway → Gateway → ChannelMessage → String → Type 0
OneRow g g' m event_type =
    (r : Row) × (g'.audit.log ≡ g.audit.log ++ (r ∷ []))
    × (r.payload.event_type ≡ event_type)
    × (r.payload.channel_user_id ≡ m.channel_user_id)
    × (r.payload.trust_level ≡ m.trust_level)

module _ (codec : Codec Detail) (config : ChannelsConfig) where
  -- A text is echoed just if it is an envelope for the socket's own channel that the allowlist and
  -- the limiter let in, and the echo is that of its text, to its sender.
  pub turn_echo_exact :
      (name : String) (owner_ids : List String) (g : Gateway) (m : Option ChannelMessage)
      (limit_now now : ℕ) (r : ChannelReply)
      → ((turn codec config name owner_ids g m limit_now now).1.0 ≡ echo r) ↔ (
          (msg : ChannelMessage) × (m ≡ some msg)
          × (msg.channel ≡ name)
          × Admitted config g owner_ids msg limit_now
          × (r ≡ echo_of msg))
  unfolding turn screen
  turn_echo_exact name owner_ids g none limit_now now r = (λ h. cc, λ (msg, e, _, _, _). cc)
  turn_echo_exact name owner_ids g (some m) limit_now now r =
      elim (Bool-cases (m.channel == name)) [
        | inl b ↦
            elim (Option-cases (
              allowed config m.channel m.channel_user_id owner_ids m.is_public_channel
                m.was_mentioned)) [
                  | inl p ↦
                      elim (Option-cases
                        (check_message g.limiter m.channel m.channel_user_id limit_now).1) [
                          | inl q ↦
                              rw (b, p, q)
                                (
                                  λ h. (
                                    m,
                                    refl,
                                    (String-eq.same_iff m.channel name).0 b,
                                    (p, q),
                                    cc,
                                  ),
                                  λ (msg, e, _, _, er). cc,
                                )
                          | inr (w, q) ↦ rw (b, p, q) (λ h. cc, λ (msg, e, _, (_, q'), _). cc)
                        ]
                  | inr (w, p) ↦ rw (b, p) (λ h. cc, λ (msg, e, _, (p', _), _). cc)
                ]
        | inr b ↦ rw b (
          λ h. cc,
          λ (msg, e, n, _, _). absurd (ground (arith, String-eq.same_iff m.channel name)),
        )
      ]

  -- An envelope leaves just one row in the audit log, which names its sender and what was done with
  -- it, and leaves the pairings and the registered channels as they were.
  pub turn-OneRow :
      (name : String) (owner_ids : List String) (g : Gateway) (m : ChannelMessage)
      (limit_now now : ℕ)
      → OneRow g
          (turn codec config name owner_ids g (some m) limit_now now).0
          m
          (event_type_of (turn codec config name owner_ids g (some m) limit_now now).1.0)
        × ((turn codec config name owner_ids g (some m) limit_now now).0.pairings ≡ g.pairings)
        × ((turn codec config name owner_ids g (some m) limit_now now).0.registered ≡ g.registered)
  unfolding turn screen append
  turn-OneRow name owner_ids g m limit_now now = elim (Bool-cases (m.channel == name)) [
    | inl b ↦
        elim (Option-cases (
          allowed config m.channel m.channel_user_id owner_ids m.is_public_channel
            m.was_mentioned)) [
              | inl p ↦
                  elim (Option-cases
                    (check_message g.limiter m.channel m.channel_user_id limit_now).1) [
                      | inl q ↦ rw (b, p, q) ((_, refl, refl, refl, refl), refl, refl)
                      | inr (w, q) ↦ rw (b, p, q) ((_, refl, refl, refl, refl), refl, refl)
                    ]
              | inr (w, p) ↦ rw (b, p) ((_, refl, refl, refl, refl), refl, refl)
            ]
    | inr b ↦ rw b ((_, refl, refl, refl, refl), refl, refl)
  ]

  -- An envelope for another channel closes the socket: whatever the adapter has sent after it is not
  -- read, the one answer names both channels, and the limiter and the pairings stay as they were.
  pub spoof_closes :
      (parse : String → Option ChannelMessage) (name : String) (owner_ids : List String)
      (g : Gateway) (r : Received) (rs : List Received) (m : ChannelMessage)
      → parse r.raw ≡ some m
      → m.channel ≢ name
      → ((serve codec config parse name owner_ids g (r ∷ rs)).1
          ≡ channel_mismatch m.channel name ∷ [])
        × ((serve codec config parse name owner_ids g (r ∷ rs)).0.limiter ≡ g.limiter)
        × ((serve codec config parse name owner_ids g (r ∷ rs)).0.pairings ≡ g.pairings)
  unfolding serve turn
  spoof_closes parse name owner_ids g r rs m hp hn =
      let b : (m.channel == name) ≡ false = beq_ne m.channel name hn in
      rw (hp, b) (refl, refl, refl)
