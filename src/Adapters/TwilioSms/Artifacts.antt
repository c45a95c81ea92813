-- ===== src/Adapters/TwilioSms/Artifacts.antt =====
-- glc/channels/catalogue/twilio_sms/artifacts.py: the store of media, by the hash of their bytes.
-- The directory is a dictionary from the 16 digits of a name to the bytes and the times; SHA-256 is
-- an argument, as its first 16 hexadecimal digits. The clock is in microseconds.
pub mod Kept
use gateway_glc_v.Common.{
  ℕ, ◌+◌, ◌*◌, sec, Bool, true, false, ◌&&◌, ◌||◌, List, [], ◌∷◌, ◌++◌, Option, none, some,
  if◌then◌else◌, leb, ltb, eqb, length, is_some,
}
use gateway_glc_v.Common.Text.{Text, codes, text_eq, starts_with, after_prefix}
use gateway_glc_v.Common.Dict.{Dict, get, put, remove}

pub record Artifact : Type 0 where
  pub bytes : List ℕ
  pub content_type : Text
  pub created_at : ℕ

abbrev pub Store : Type 0
Store = Dict Text Artifact

abbrev pub prefix : Text
prefix = codes "art:"

abbrev is_hex : ℕ → Bool
is_hex c = (leb b'a' c && leb c b'f') || (leb b'0' c && leb c b'9')

abbrev pub all_hex : Text → Bool
all_hex [] = true
all_hex (c ∷ s) = is_hex c && all_hex s

-- `re.fullmatch(r"[a-f0-9]{16}", sha)`
abbrev pub is_sha16 : Text → Bool
is_sha16 s = all_hex s && eqb (length s) 16

-- `_validate_ref`
unfoldable pub validate_ref : Text → Option Text
validate_ref ref =
    if starts_with ref prefix
    then (if is_sha16 (after_prefix ref prefix) then some (after_prefix ref prefix) else none)
    else none

-- `get_bytes`, `exists` and `remove`
abbrev bytes_at : Store → Option Text → Option (List ℕ)
bytes_at s none = none
bytes_at s (some sha) = elim (get s sha) [ none ↦ none | some a ↦ some a.bytes ]

unfoldable pub get_bytes : Store → Text → Option (List ℕ)
get_bytes s ref = bytes_at s (validate_ref ref)

abbrev removed_at : Store → Option Text → Store × Bool
removed_at s none = (s, false)
removed_at s (some sha) = (remove s sha, is_some (get s sha))

unfoldable pub remove_ref : Store → Text → Store × Bool
remove_ref s ref = removed_at s (validate_ref ref)

-- `cleanup_session`
unfoldable pub cleanup_session : Store → List Text → Store × ℕ
cleanup_session s [] = (s, 0)
cleanup_session s (ref ∷ refs) =
    let (s', gone) = remove_ref s ref in
    let (s'', n) = cleanup_session s' refs in (s'', if gone then n + 1 else n)

-- `cleanup_expired`, with MAX_AGE seconds
abbrev pub max_age : ℕ
max_age = 300 * sec

unfoldable pub cleanup_expired : Store → ℕ → Store × ℕ
cleanup_expired [] now = ([], 0)
cleanup_expired ((sha, a) ∷ s) now =
    let (s', n) = cleanup_expired s now in
    if ltb (a.created_at + max_age) now then (s', n + 1) else ((sha, a) ∷ s', n)

module _ (sha16 : List ℕ → Text) where
  -- `put`, which leaves an artifact that is there
  unfoldable pub put_blob : Store → List ℕ → Text → ℕ → Store × Text
  put_blob s blob content_type now = (
    if is_some (get s (sha16 blob))
        then s
        else put s (sha16 blob)
            (record { bytes = blob; content_type = content_type; created_at = now }),
    prefix ++ sha16 blob,
  )
