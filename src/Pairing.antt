-- ===== src/Pairing.antt =====
-- glc/security/pairing.py and glc/security/trust_level.py: pairing codes, the table of paired
-- users, and the trust level that follows from it. The two SQL tables are dictionaries by their
-- primary keys. A call takes the random number and the times that it reads.
mod Codes
pub mod Rows
pub mod Provenance
mod Tests
use gateway_glc_v.Common.{
  ℕ, ◌+◌, ◌*◌, ◌/◌, ◌%◌, ◌≡◌, String, Bool, true, false, ◌&&◌, List, [], ◌∷◌, Option, none, some,
  ltb, if◌then◌else◌, is_some, sec, ◌==◌, String-eq, pair_eq,
}
use gateway_glc_v.Common.Dict.{Dict, get, put, remove}
use gateway_glc_v.Common.Text.{Text, text_eq}

abbrev pub code_ttl_seconds : ℕ
code_ttl_seconds = 300

pub record PairingRecord : Type 0 where
  pub channel : String
  pub channel_user_id : String
  pub user_handle : String
  pub trust_level : String
  pub paired_at : ℕ

-- A row of `pairings` behind its key (channel, channel_user_id).
pub record Pairing : Type 0 where
  pub user_handle : String
  pub trust_level : String
  pub paired_at : ℕ

-- A row of `pending_codes` behind its code.
pub record Pending : Type 0 where
  pub channel : String
  pub channel_user_id : String
  pub user_handle : String
  pub requested_trust_level : String
  pub expires_at : ℕ

pub record PairingStore : Type 0 where
  pub pairings : Dict (String × String) Pairing
  pub pending_codes : Dict Text Pending

-- `_init_schema` on a fresh file
abbrev pub empty : PairingStore
empty = record { pairings = []; pending_codes = [] }

abbrev digit : ℕ → ℕ
digit n = b'0' + n % 10

-- `f"{n:06d}"` of `secrets.randbelow(1_000_000)`
unfoldable pub format_code : ℕ → Text
format_code n =
    digit (n / 100000)
    ∷ digit (n / 10000)
    ∷ digit (n / 1000)
    ∷ digit (n / 100)
    ∷ digit (n / 10)
    ∷ digit n
    ∷ []

abbrev pub issued_row : String → String → String → String → ℕ → Pending
issued_row channel channel_user_id user_handle requested_trust_level now = record {
  channel = channel;
  channel_user_id = channel_user_id;
  user_handle = user_handle;
  requested_trust_level = requested_trust_level;
  expires_at = now + code_ttl_seconds * sec;
}

unfoldable pub issue_code :
    PairingStore → String → String → String → String → ℕ → ℕ → PairingStore × (Text × ℕ)
issue_code s channel channel_user_id user_handle requested_trust_level random now =
    let code = format_code random in
    let row = issued_row channel channel_user_id user_handle requested_trust_level now in
    (record s { pending_codes = put s.pending_codes code row }, (code, row.expires_at))

abbrev pub pair_row : Pending → ℕ → Pairing
pair_row row paired_at = record {
  user_handle = row.user_handle;
  trust_level = row.requested_trust_level;
  paired_at = paired_at;
}

abbrev pub to_record : String → String → Pairing → PairingRecord
to_record channel user row = record {
  channel = channel;
  channel_user_id = user;
  user_handle = row.user_handle;
  trust_level = row.trust_level;
  paired_at = row.paired_at;
}

-- `confirm_code` behind its SELECT: `now` decides on expiry, `paired_at` is the next reading.
unfoldable pub confirm_row :
    PairingStore → Text → Option Pending → ℕ → ℕ → PairingStore × Option PairingRecord
confirm_row s code none now paired_at = (s, none)
confirm_row s code (some row) now paired_at =
    if ltb row.expires_at now
    then (record s { pending_codes = remove s.pending_codes code }, none)
    else (
      record s {
        pairings = put s.pairings (row.channel, row.channel_user_id) (pair_row row paired_at);
        pending_codes = remove s.pending_codes code;
      },
      some (to_record row.channel row.channel_user_id (pair_row row paired_at)),
    )

unfoldable pub confirm_code : PairingStore → Text → ℕ → ℕ → PairingStore × Option PairingRecord
unfolding confirm_row
confirm_code s code now paired_at = confirm_row s code (get s.pending_codes code) now paired_at

abbrev found : String → String → Option Pairing → Option PairingRecord
found channel user none = none
found channel user (some row) = some (to_record channel user row)

unfoldable pub lookup : PairingStore → String → String → Option PairingRecord
lookup s channel user = found channel user (get s.pairings (channel, user))

-- `if channel:` takes the empty text for no filter
abbrev on_channel : Option String → String → Bool
on_channel none c = true
on_channel (some channel) c = if channel == "" then true else c == channel

unfoldable pub owners_of : Option String → Dict (String × String) Pairing → List PairingRecord
owners_of channel [] = []
owners_of channel (((c, u), row) ∷ rest) =
    let others = owners_of channel rest in
    if (row.trust_level == "owner_paired") && on_channel channel c
    then to_record c u row ∷ others
    else others

unfoldable pub owners : PairingStore → Option String → List PairingRecord
unfolding owners_of
owners s channel = owners_of channel s.pairings

records : Dict (String × String) Pairing → List PairingRecord
records [] = []
records (((c, u), row) ∷ rest) = to_record c u row ∷ records rest

unfoldable pub all_pairings : PairingStore → List PairingRecord
unfolding records
all_pairings s = records s.pairings

-- `cur.rowcount > 0`
unfoldable pub revoke : PairingStore → String → String → PairingStore × Bool
revoke s channel user = (
  record s { pairings = remove s.pairings (channel, user) },
  is_some (get s.pairings (channel, user)),
)

abbrev pub owner_row : String → ℕ → Pairing
owner_row handle paired_at = record {
  user_handle = handle;
  trust_level = "owner_paired";
  paired_at = paired_at;
}

unfoldable pub force_pair_owner :
    PairingStore → String → String → String → ℕ → PairingStore × PairingRecord
force_pair_owner s channel user handle paired_at =
    let row = owner_row handle paired_at in
    (record s { pairings = put s.pairings (channel, user) row }, to_record channel user row)

-- trust_level.py
pub data TrustLevel : Type 0 where
  owner_paired user_paired untrusted : TrustLevel

abbrev trust_of : Option PairingRecord → TrustLevel
trust_of none = untrusted
trust_of (some rec) = if rec.trust_level == "owner_paired" then owner_paired else user_paired

unfoldable pub classify : PairingStore → String → String → TrustLevel
unfolding lookup
classify s channel user = trust_of (lookup s channel user)
