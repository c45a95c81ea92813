-- ===== src/Channels/Session.antt =====
-- Sessions of sockets, webhooks and changes of the pairings, in any order.
use gateway_glc_v.Common.{
  ℕ, ◌≡◌, sym, String, String-eq, ◌==◌, true, List, [], ◌∷◌, Option, none, some, arith,
  Option-cases, Bool-cases, inl, inr, All, All-weaken, ap, ◌++◌, [], refl, if_both, contains,
}
use gateway_glc_v.Common.Text.{Text, text_eq}
use gateway_glc_v.Allowlist.{ChannelsConfig, allowed}
use gateway_glc_v.Audit.{Param, Codec, fresh, value, intact, verify_chain}
use gateway_glc_v.Audit.Chain.{IsIntact, append-IsIntact, verify-IsIntact, fresh-IsIntact}
use gateway_glc_v.Pairing.{PairingStore}
use gateway_glc_v.RateLimits.{check_message}
use gateway_glc_v.Channels.{
  ChannelMessage, ChannelReply, Detail, Gateway, Frame, echo, Received, echo_of, presented,
  is_token, register, screen, turn, serve, channel_ws, Verdict, refused, limited, admitted,
  frame_of, answer_of, delivered, inbound, inbound_from, Registry, owner_ids_of, channel_webhook,
}
use gateway_glc_v.Channels.Turn.{Admitted, turn_echo_exact}

token_lem : (t : Option Text) (expected : Text) → is_token t expected ≡ true → t ≡ some expected
token_lem none expected h = cc
token_lem (some t) expected h = ground (arith, text_eq.same_iff t expected)

module _ (codec : Codec Detail) (config : ChannelsConfig)
    (parse : String → Option ChannelMessage) where
  -- The text that was echoed, and the gateway as the texts before it left it.
  pub record Due (name : String) (owner_ids : List String) (g : Gateway) (rs : List Received)
      (reply : ChannelReply) : Type 0 where
    pub before : List Received
    pub text : Received
    pub after : List Received
    pub in_order : rs ≡ before ++ (text ∷ after)
    pub gateway : Gateway
    pub reached : gateway ≡ (serve codec config parse name owner_ids g before).0
    pub message : ChannelMessage
    pub parsed : parse text.raw ≡ some message
    pub same_channel : message.channel ≡ name
    pub admitted : Admitted config gateway owner_ids message text.limit_now
    pub is_echo : reply ≡ echo_of message

  abbrev pub EchoesDue : String → List String → Gateway → List Received → List Frame → Type 0
  EchoesDue name owner_ids g rs fs =
      All (λ f. (reply : ChannelReply) → f ≡ echo reply → Due name owner_ids g rs reply) fs

  turn-Due :
      (name : String) (owner_ids : List String) (g : Gateway) (r : Received) (rs : List Received)
      (reply : ChannelReply)
      → (turn codec config name owner_ids g (parse r.raw) r.limit_now r.audit_now).1.0 ≡ echo reply
      → Due name owner_ids g (r ∷ rs) reply
  turn-Due name owner_ids g r rs reply h =
      let (m, hp, hc, ha, he) =
        (turn_echo_exact codec config name owner_ids g (parse r.raw) r.limit_now r.audit_now
            reply).0
          h in
      record {
        before = [];
        text = r;
        after = rs;
        in_order = refl;
        gateway = g;
        reached = unfold serve in refl;
        message = m;
        parsed = hp;
        same_channel = hc;
        admitted = ha;
        is_echo = he;
      }

  later-Due :
      (name : String) (owner_ids : List String) (g : Gateway) (r : Received) (rs : List Received)
      (reply : ChannelReply)
      → (turn codec config name owner_ids g (parse r.raw) r.limit_now r.audit_now).1.1 ≡ true
      → Due name owner_ids
          (turn codec config name owner_ids g (parse r.raw) r.limit_now r.audit_now).0
          rs
          reply
      → Due name owner_ids g (r ∷ rs) reply
  later-Due name owner_ids g r rs reply go_on d = record {
    before = r ∷ d.before;
    text = d.text;
    after = d.after;
    in_order = ap (λ l. r ∷ l) d.in_order;
    gateway = d.gateway;
    reached = unfold serve in rw go_on d.reached;
    message = d.message;
    parsed = d.parsed;
    same_channel = d.same_channel;
    admitted = d.admitted;
    is_echo = d.is_echo;
  }

  serve-EchoesDue :
      (name : String) (owner_ids : List String) (g : Gateway) (rs : List Received)
      → EchoesDue name owner_ids g rs (serve codec config parse name owner_ids g rs).1
  unfolding serve
  serve-EchoesDue name owner_ids g [] = tt
  serve-EchoesDue name owner_ids g (r ∷ rs) =
      let t = turn codec config name owner_ids g (parse r.raw) r.limit_now r.audit_now in
      let rest = serve-EchoesDue name owner_ids t.0 rs in
      elim (Bool-cases t.1.1) [
        | inl go_on ↦ rw go_on (
          turn-Due name owner_ids g r rs,
          All-weaken _ _ (λ f d reply e. later-Due name owner_ids g r rs reply go_on (d reply e))
              (serve codec config parse name owner_ids t.0 rs).1 rest,
        )
        | inr stop ↦ rw stop (turn-Due name owner_ids g r rs, tt)
      ]

  -- A socket that is accepted has presented the install token, and each echo on it answers one of
  -- the texts received: an envelope for the socket's own channel that the allowlist, with the owners
  -- of the time the socket was opened, and the limiter, as the texts before it left it, let in.
  pub socket_answers_due :
      (g : Gateway) (name : String) (header token : Option Text) (expected : Text)
      (rs : List Received) (fs : List Frame)
      → (channel_ws codec config parse g name header token expected rs).1 ≡ some fs
      → (presented header token ≡ some expected)
        × EchoesDue name (owner_ids_of (register g name) name) (register g name) rs fs
  unfolding channel_ws
  socket_answers_due g name header token expected rs fs h =
      elim (Bool-cases (is_token (presented header token) expected)) [
        | inl b ↦
            let e : (serve codec config parse name (owner_ids_of (register g name) name)
                  (register g name) rs).1
                ≡ fs =
              ground arith in
            (
              token_lem (presented header token) expected b,
              rw (sym e)
                  (serve-EchoesDue name (owner_ids_of (register g name) name) (register g name) rs),
            )
        | inr b ↦ absurd (ground arith)
      ]

  -- One thing that happens to the gateway. Any turn of a loop is one: sockets run side by side.
  pub data Move : Gateway → Gateway → Type 0 where
    opened : (g : Gateway) (name : String) → Move g (register g name)
    received :
        (g : Gateway) (name : String) (owner_ids : List String) (r : Received)
        → Move g (turn codec config name owner_ids g (parse r.raw) r.limit_now r.audit_now).0
    posted :
        (g : Gateway) (registry : Registry) (name : String) (raw : Text) (limit_now now : ℕ)
        → Move g (channel_webhook codec config registry g name raw limit_now now).0
    paired : (g : Gateway) (p : PairingStore) → Move g (record g { pairings = p })

  pub data Reaches (g : Gateway) : Gateway → Type 0 where
    start : Reaches g g
    next : {g1 g2 : Gateway} → Reaches g g1 → Move g1 g2 → Reaches g g2

  screen-IsIntact :
      (g : Gateway) (owner_ids : List String) (m : ChannelMessage) (params : Param Detail)
      (limit_now now : ℕ)
      → IsIntact codec g.audit
      → IsIntact codec (screen codec config g owner_ids m params limit_now now).0.audit
  unfolding screen
  screen-IsIntact g owner_ids m params limit_now now h =
      elim (Option-cases (
        allowed config m.channel m.channel_user_id owner_ids m.is_public_channel m.was_mentioned)) [
          | inl p ↦
              elim (Option-cases
                (check_message g.limiter m.channel m.channel_user_id limit_now).1) [
                  | inl q ↦ rw (p, q) (append-IsIntact codec g.audit _ now h)
                  | inr (w, q) ↦ rw (p, q) (append-IsIntact codec g.audit _ now h)
                ]
          | inr (w, p) ↦ rw p (append-IsIntact codec g.audit _ now h)
        ]

  frame-IsIntact :
      (m : ChannelMessage) (x : Gateway × Verdict)
      → IsIntact codec x.0.audit
      → IsIntact codec (frame_of m x).0.audit
  frame-IsIntact m (g, refused why) h = h
  frame-IsIntact m (g, limited why) h = h
  frame-IsIntact m (g, admitted) h = h

  answer-IsIntact :
      (m : ChannelMessage) (x : Gateway × Verdict)
      → IsIntact codec x.0.audit
      → IsIntact codec (answer_of m x).0.audit
  answer-IsIntact m (g, refused why) h = h
  answer-IsIntact m (g, limited why) h = h
  answer-IsIntact m (g, admitted) h = h

  turn-IsIntact :
      (name : String) (owner_ids : List String) (g : Gateway) (m : Option ChannelMessage)
      (limit_now now : ℕ)
      → IsIntact codec g.audit
      → IsIntact codec (turn codec config name owner_ids g m limit_now now).0.audit
  unfolding turn
  turn-IsIntact name owner_ids g none limit_now now h = h
  turn-IsIntact name owner_ids g (some m) limit_now now h =
      let k = screen-IsIntact g owner_ids m (value (inbound m.text m.thread_id)) limit_now now h in
      elim (Bool-cases (m.channel == name)) [
        | inl b ↦ rw b (
            frame-IsIntact m
              (screen codec config g owner_ids m (value (inbound m.text m.thread_id)) limit_now now)
              k)
        | inr b ↦ rw b (append-IsIntact codec g.audit _ now h)
      ]

  webhook-IsIntact :
      (g : Gateway) (name : String) (m : Option ChannelMessage) (limit_now now : ℕ)
      → IsIntact codec g.audit
      → IsIntact codec (delivered codec config g name m limit_now now).0.audit
  webhook-IsIntact g name none limit_now now h = h
  webhook-IsIntact g name (some m) limit_now now h =
      let params = value (inbound_from m.text m.thread_id m.provider) in
      answer-IsIntact m (screen codec config g (owner_ids_of g name) m params limit_now now)
        (screen-IsIntact g (owner_ids_of g name) m params limit_now now h)

  Move-IsIntact : {g g' : Gateway} → Move g g' → IsIntact codec g.audit → IsIntact codec g'.audit
  unfolding channel_webhook
  Move-IsIntact (opened g name) h =
      if_both (λ (x : Gateway). IsIntact codec x.audit) (contains g.registered name) _ _ h h
  Move-IsIntact (received g name owner_ids r) h =
      turn-IsIntact name owner_ids g (parse r.raw) r.limit_now r.audit_now h
  Move-IsIntact (posted g registry name raw limit_now now) h = elim (Option-cases (registry name)) [
    | inl p ↦ rw (p, channel_webhook) h
    | inr (on_message, p) ↦
        rw (p, channel_webhook) (webhook-IsIntact g name (on_message raw) limit_now now h)
  ]
  Move-IsIntact (paired g p) h = h

  Reaches-IsIntact :
      {g g' : Gateway} → Reaches g g' → IsIntact codec g.audit → IsIntact codec g'.audit
  Reaches-IsIntact start h = h
  Reaches-IsIntact (next r m) h = Move-IsIntact m (Reaches-IsIntact r h)

  -- Whatever order the turns of all the sockets, the webhooks and the changes of the pairings come
  -- in, the chain of the audit log that began empty is intact.
  pub audit_stays_intact :
      (g g' : Gateway) → g.audit ≡ fresh → Reaches g g' → verify_chain codec g'.audit ≡ intact
  audit_stays_intact g g' e r =
      verify-IsIntact codec g'.audit (Reaches-IsIntact r (rw e (fresh-IsIntact codec)))
