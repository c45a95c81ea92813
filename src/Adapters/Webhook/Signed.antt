-- ===== src/Adapters/Webhook/Signed.antt =====
-- The signature of a webhook request: what a message that is let through carries.
use gateway_glc_v.Common.{
  ℕ, ◌*◌, ◌+◌, ◌≤◌, ◌≡◌, refl, Bool, true, false, not, ◌||◌, List, [], ◌∷◌, Option, none, some,
  if◌then◌else◌, sec, ok, arith, >>=-eq-ok, ok-injective,
}
use gateway_glc_v.Common.Text.{Text, codes, text_beq_iff, text_eq}
use gateway_glc_v.Common.Dict.{Dict, get}
use gateway_glc_v.Channels.{ChannelMessage}
use gateway_glc_v.Adapters.{Security, Config, lets_in}
use gateway_glc_v.Adapters.Webhook.{
  Python, Raw, request, anything_else, WebhookInbound, header, fields, nonempty, replay_window,
  signed_text, check_time, verify_fields, verify_header, header_name, verify, message, accepted,
  on_message,
}

nonempty-eq-some : (o : Option Text) (s : Text) → nonempty o ≡ some s → o ≡ some s
nonempty-eq-some none s h = cc
nonempty-eq-some (some []) s h = cc
nonempty-eq-some (some (c ∷ t)) s h = h

-- What `_verify` has found when it returns True.
abbrev pub Signed : Python → Text → List ℕ → ℕ → Text → Type 0
Signed py secret body now sig =
    (ts : Text) × (received : Text) × (t : ℕ) × (get (fields sig) (codes "t") ≡ some ts)
    × (get (fields sig) (codes "v1") ≡ some received)
    × (received ≡ py.hmac secret (signed_text py ts body))
    × (py.int ts ≡ some t)
    × (now ≤ t * sec + replay_window)
    × (t * sec ≤ now + replay_window)

time_sound :
    (py : Python) (secret : Text) (body : List ℕ) (now : ℕ) (ts received : Text) (o : Option ℕ)
    → check_time py secret body now ts received o ≡ ok true
    → (t : ℕ) × (o ≡ some t)
      × (received ≡ py.hmac secret (signed_text py ts body))
      × (now ≤ t * sec + replay_window)
      × (t * sec ≤ now + replay_window)
time_sound py secret body now ts received none h = cc
time_sound py secret body now ts received (some t) h =
    let expected = py.hmac secret (signed_text py ts body) in
    (t, refl, ground (arith, text_beq_iff expected received), ground arith, ground arith)

fields_sound :
    (py : Python) (secret : Text) (body : List ℕ) (now : ℕ) (ts received : Option Text)
    → verify_fields py secret body now ts received ≡ ok true
    → (ts' : Text) × (received' : Text) × (ts ≡ some ts')
      × (received ≡ some received')
      × (check_time py secret body now ts' received' (py.int ts') ≡ ok true)
fields_sound py secret body now none received h = cc
fields_sound py secret body now (some ts) none h = cc
fields_sound py secret body now (some ts) (some received) h =
    (ts, received, refl, refl, ground arith)

header_sound :
    (py : Python) (secret : Option Text) (body : List ℕ) (now : ℕ) (sig : Option Text)
    → verify_header py secret body now sig ≡ ok true
    → (key : Text) × (value : Text) × (secret ≡ some key)
      × (sig ≡ some value)
      × Signed py key body now value
header_sound py none body now sig h = cc
header_sound py (some secret) body now none h = cc
header_sound py (some secret) body now (some sig) h =
    let (ts, received, has_ts, has_received, timed) =
      fields_sound py secret body now (nonempty (get (fields sig) (codes "t")))
        (nonempty (get (fields sig) (codes "v1"))) h in
    let (t, read, same, late, early) =
      time_sound py secret body now ts received (py.int ts) timed in
    (
      secret,
      sig,
      refl,
      refl,
      (
        ts,
        received,
        t,
        nonempty-eq-some _ ts has_ts,
        nonempty-eq-some _ received has_received,
        same,
        read,
        late,
        early,
      ),
    )

abbrev pub gate : Security → Config → WebhookInbound → Bool
gate world config inbound =
    not config.is_public_channel
    || lets_in world "webhook" inbound.sender_id config.is_public_channel config.was_mentioned

if_some {ℓ} :
    {A : Type ℓ} (b : Bool) (o : Option A) (a : A)
    → (if b then o else none) ≡ some a
    → (b ≡ true) × (o ≡ some a)
if_some true o a h = (refl, h)
if_some false o a h = cc

accepted_sound :
    (world : Security) (config : Config) (o : Option WebhookInbound) (m : ChannelMessage)
    → accepted world config o ≡ some m
    → (inbound : WebhookInbound) × (o ≡ some inbound)
      × (m ≡ message world config inbound)
      × (gate world config inbound ≡ true)
accepted_sound world config none m h = cc
accepted_sound world config (some inbound) m h =
    let (through, same) =
      if_some (gate world config inbound) (some (message world config inbound)) m h in
    (inbound, refl, cc (same), through)

-- A message comes out of the webhook adapter only for a request whose signature header has, under
-- the shared secret of the environment, the HMAC of its own timestamp and this very body, where the
-- timestamp is within 300 seconds of the clock; the message is the one that the body states, with
-- the trust of the pairing store and the flags of the configuration whatever the body claims, and
-- in a public channel the sender is one that the allowlist lets in.
pub message-Signed :
    (py : Python) (world : Security) (config : Config) (secret : Option Text) (now : ℕ) (raw : Raw)
    (m : ChannelMessage)
    → on_message py world config secret now raw ≡ ok (some m)
    → (body : List ℕ) × (headers : Dict Text Text) × (key : Text) × (sig : Text)
      × (inbound : WebhookInbound) × (raw ≡ request body headers)
      × (secret ≡ some key)
      × (header headers header_name ≡ some sig)
      × Signed py key body now sig
      × (py.model_validate_json body ≡ some inbound)
      × (m ≡ message world config inbound)
      × (gate world config inbound ≡ true)
unfolding on_message verify
message-Signed py world config secret now anything_else m h = cc
message-Signed py world config secret now (request body headers) m h =
    let (valid, checked, given) =
      >>=-eq-ok (verify py secret body headers now)
        (λ valid. ok (if valid then accepted world config (py.model_validate_json body) else none))
        h in
    let (was_valid, made) =
      if_some valid (accepted world config (py.model_validate_json body)) m (ok-injective given) in
    let (key, sig, has_key, has_sig, signed) =
      header_sound py (nonempty secret) body now (nonempty (header headers header_name))
        (cc (checked, was_valid)) in
    let (inbound, parsed, m_is, gated) =
      accepted_sound world config (py.model_validate_json body) m made in
    (
      body,
      headers,
      key,
      sig,
      inbound,
      refl,
      nonempty-eq-some secret key has_key,
      nonempty-eq-some (header headers header_name) sig has_sig,
      signed,
      parsed,
      m_is,
      gated,
    )
