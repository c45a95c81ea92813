-- ===== src/Adapters/Webhook.antt =====
-- glc/channels/catalogue/webhook/adapter.py: signed HTTP requests.
-- UTF-8 decoding, HMAC-SHA256 as a hexadecimal text, `str.isdigit` of a character, `int` of a text
-- and the validation of the JSON body are a Python argument. The clock is in microseconds.
pub mod Signed
pub mod Heard
pub mod Route
use gateway_glc_v.Common.{
  ℕ, ◌==◌, String-eq, ◌-◌, ◌*◌, ◌+◌, ◌^◌, String, Bool, true, false, not, ◌&&◌, ◌||◌, List, [], ◌∷◌,
  ◌++◌, Option, none, some, if◌then◌else◌, sec, ltb, leb, eqb, Result, ok, err, ◌>>=◌,
}
use gateway_glc_v.Common.Text.{Text, codes, text_beq, text_eq, lower, split}
use gateway_glc_v.Common.Dict.{Dict, get, put}
use gateway_glc_v.Channels.{ChannelMessage}
use gateway_glc_v.Adapters.{Security, Config, trust_of_sender, lets_in, passed}

-- A value of the body's metadata: what the routes read of it, and all else by its truth value.
pub data Meta : Type 0 where
  flag : Bool → Meta
  note : String → Meta
  other_meta : Bool → Meta

pub record WebhookInbound : Type 0 where
  pub sender_id : String
  pub sender_handle : String
  pub text : Option Text
  pub metadata : Dict Text Meta

pub record Python : Type 0 where
  pub decode : List ℕ → Text
  pub hmac : Text → Text → Text
  pub is_digit : ℕ → Bool
  pub int : Text → Option ℕ
  pub model_validate_json : List ℕ → Option WebhookInbound

-- What `_verify` may raise: the ValueError of `int`, the OverflowError of a float less a number that
-- no float is near to, and the TypeError of `compare_digest`.
pub data Raised : Type 0 where
  value_error overflow_error type_error : Raised

pub data Raw : Type 0 where
  request : List ℕ → Dict Text Text → Raw
  anything_else : Raw

-- `next((v for k, v in headers.items() if k.lower() == name), None)`
abbrev pub header : Dict Text Text → Text → Option Text
header [] name = none
header ((k, v) ∷ rest) name = if text_beq (lower k) name then some v else header rest name

-- `p.split(sep, 1)` if `sep` is in `p`
abbrev pub cut : ℕ → Text → Option (Text × Text)
cut sep [] = none
cut sep (c ∷ s) =
    let rest = cut sep s in
    if eqb c sep then some ([], s) else (elim rest [ none ↦ none | some (a, b) ↦ some (c ∷ a, b) ])

-- `dict(p.split("=", 1) for p in parts if "=" in p)`, with what is read so far
abbrev pub read_fields : Dict Text Text → List Text → Dict Text Text
read_fields d [] = d
read_fields d (p ∷ ps) = read_fields (elim (cut b'=' p) [ none ↦ d | some (k, v) ↦ put d k v ]) ps

abbrev pub fields : Text → Dict Text Text
fields sig = read_fields [] (split b',' sig)

-- The value, if there is one and it is not the empty text.
abbrev pub nonempty : Option Text → Option Text
nonempty none = none
nonempty (some []) = none
nonempty (some (c ∷ s)) = some (c ∷ s)

abbrev all_digits : (ℕ → Bool) → Text → Bool
all_digits digit [] = true
all_digits digit (c ∷ s) = digit c && all_digits digit s

-- `s.isdigit()` of a text that is not empty
abbrev pub isdigit : (ℕ → Bool) → Text → Bool
isdigit digit [] = false
isdigit digit (c ∷ s) = all_digits digit (c ∷ s)

abbrev pub is_ascii : Text → Bool
is_ascii [] = true
is_ascii (c ∷ s) = leb c 127 && is_ascii s

-- `abs(time.time() - int(ts)) > REPLAY_WINDOW_SECONDS`
abbrev pub replay_window : ℕ
replay_window = 300 * sec

abbrev pub stale : ℕ → ℕ → Bool
stale now ts = ltb replay_window (now - ts * sec) || ltb replay_window (ts * sec - now)

-- `float - n` raises if `n` rounds to no finite double.
unfoldable pub overflows : ℕ → Bool
overflows n = leb (2 ^ 1024 - 2 ^ 970) n

abbrev pub signed_text : Python → Text → List ℕ → Text
signed_text py ts body = ts ++ (b'.' ∷ py.decode body)

-- `hmac.compare_digest(expected, received)`
abbrev pub compare_digest : Text → Text → Result Raised Bool
compare_digest expected received =
    if is_ascii expected && is_ascii received
    then ok (text_beq expected received)
    else err type_error

abbrev pub check_time : Python → Text → List ℕ → ℕ → Text → Text → Option ℕ → Result Raised Bool
check_time py secret body now ts received none = err value_error
check_time py secret body now ts received (some t) =
    if overflows t
    then err overflow_error
    else if stale now t
    then ok false
    else compare_digest (py.hmac secret (signed_text py ts body)) received

-- `_verify`, with the two fields of the header
abbrev pub verify_fields :
    Python → Text → List ℕ → ℕ → Option Text → Option Text → Result Raised Bool
verify_fields py secret body now none received = ok false
verify_fields py secret body now (some ts) none = ok false
verify_fields py secret body now (some ts) (some received) =
    if isdigit py.is_digit ts
    then check_time py secret body now ts received (py.int ts)
    else ok false

-- `_verify`, with the secret and the header
abbrev pub verify_header : Python → Option Text → List ℕ → ℕ → Option Text → Result Raised Bool
verify_header py none body now sig = ok false
verify_header py (some secret) body now none = ok false
verify_header py (some secret) body now (some sig) =
    verify_fields py secret body now (nonempty (get (fields sig) (codes "t")))
      (nonempty (get (fields sig) (codes "v1")))

abbrev pub header_name : Text
header_name = codes "x-webhook-signature"

unfoldable pub verify : Python → Option Text → List ℕ → Dict Text Text → ℕ → Result Raised Bool
verify py secret body headers now =
    verify_header py (nonempty secret) body now (nonempty (header headers header_name))

-- The metadata of a message, with the two flags of the configuration written over it.
abbrev pub metadata_of : Config → WebhookInbound → Dict Text Meta
metadata_of config m =
    put (put m.metadata (codes "is_public_channel") (flag config.is_public_channel))
      (codes "was_mentioned") (flag config.was_mentioned)

-- `bool(metadata.get(key, False))`, and `metadata.get("provider")` where that is a text
abbrev pub flag_at : Dict Text Meta → Text → Bool
flag_at d key = elim (get d key) [
  | none ↦ false
  | some m ↦ (elim m [ flag b ↦ b | note s ↦ not (s == "") | other_meta b ↦ b ])
]

abbrev note_at : Dict Text Meta → Text → Option String
note_at d key = elim (get d key) [
  | none ↦ none
  | some m ↦ (elim m [ flag b ↦ none | note s ↦ some s | other_meta b ↦ none ])
]

abbrev pub message : Security → Config → WebhookInbound → ChannelMessage
message world config m = record {
  channel = "webhook";
  channel_user_id = m.sender_id;
  text = m.text;
  thread_id = none;
  trust_level = trust_of_sender world "webhook" m.sender_id;
  is_public_channel = flag_at (metadata_of config m) (codes "is_public_channel");
  was_mentioned = flag_at (metadata_of config m) (codes "was_mentioned");
  provider = note_at (metadata_of config m) (codes "provider");
}

-- The message of a request whose signature was verified.
abbrev pub accepted : Security → Config → Option WebhookInbound → Option ChannelMessage
accepted world config none = none
accepted world config (some m) =
    passed
      (not config.is_public_channel
        || lets_in world "webhook" m.sender_id config.is_public_channel config.was_mentioned)
      (message world config m)

unfoldable pub on_message :
    Python → Security → Config → Option Text → ℕ → Raw → Result Raised (Option ChannelMessage)
on_message py world config secret now anything_else = ok none
on_message py world config secret now (request body headers) = do
  valid ← verify py secret body headers now
  ok (if valid then accepted world config (py.model_validate_json body) else none)
