-- ===== src/Audit.antt =====
-- glc/audit/store.py: the hash-chained audit log and the check of its chain.
-- SHA-256 (as a hexadecimal text) and `json.dumps` are arguments: a `Codec`.
pub mod Chain
pub mod Tamper
mod Tests
use gateway_glc_v.Common.{
  ℕ, ◌+◌, ◌≡◌, String, Bool, true, false, not, List, [], ◌∷◌, ◌++◌, Option, none, some,
  if◌then◌else◌, length, ◌==◌, ℕ-eq,
}
use gateway_glc_v.Common.Text.{Text, text_eq}

-- A value for `params` or `result`: `None`, a text, or a value of type `D` that is dumped.
pub data Param (D : Type 0) : Type 0 where
  absent : Param D
  text : Text → Param D
  value : D → Param D

-- `_payload`
pub record Payload : Type 0 where
  pub ts : ℕ
  pub session_id : Option String
  pub channel : String
  pub channel_user_id : String
  pub trust_level : String
  pub event_type : String
  pub tool : Option String
  pub policy_verdict : Option String
  pub params_json : Option Text
  pub result_json : Option Text

-- The arguments of `append`.
pub record Event (D : Type 0) : Type 0 where
  pub channel : String
  pub channel_user_id : String
  pub trust_level : String
  pub event_type : String
  pub session_id : Option String
  pub tool : Option String
  pub policy_verdict : Option String
  pub params : Param D
  pub result : Param D

pub record Row : Type 0 where
  pub id : ℕ
  pub payload : Payload
  pub prev_hash : Text
  pub row_hash : Text

pub record Head : Type 0 where
  pub last_id : ℕ
  pub last_hash : Text
  pub count : ℕ

-- `audit_log` in the order of its ids, `audit_head`, and the counter of AUTOINCREMENT.
pub record AuditDb : Type 0 where
  pub log : List Row
  pub head : Option Head
  pub last_rowid : ℕ

abbrev pub fresh : AuditDb
fresh = record { log = []; head = none; last_rowid = 0 }

pub record Codec (D : Type 0) : Type 0 where
  pub sha256 : Text → Text
  pub canonical : Payload → Text
  pub dumps : D → Text

abbrev zeros : ℕ → Text
zeros ℕ.zero = []
zeros (ℕ.suc n) = b'0' ∷ zeros n

-- `_GENESIS`
abbrev pub genesis : Text
genesis = zeros 64

-- What is wrong with the row of an id.
pub data Fault : Type 0 where
  broken_link : ℕ → Fault
  row_edited : ℕ → Fault

pub data Verdict : Type 0 where
  intact : Verdict
  rows_deleted : ℕ → ℕ → Verdict
  bad_row : Fault → Verdict
  tail_mismatch : Verdict

abbrev last_hash_of : Option Head → Text
last_hash_of none = genesis
last_hash_of (some h) = h.last_hash

abbrev pub count_of : Option Head → ℕ
count_of none = 0
count_of (some h) = h.count

-- The answer of the walk: a fault of the log, or the hash that the walk ends with.
pub data Walk : Type 0 where
  stopped : Fault → Walk
  reached : Text → Walk

abbrev tail_verdict : Option Head → Text → Verdict
tail_verdict none prev = intact
tail_verdict (some h) prev = if prev == h.last_hash then intact else tail_mismatch

abbrev finish : Option Head → Walk → Verdict
finish head (stopped f) = bad_row f
finish head (reached prev) = tail_verdict head prev

module _ {D : Type 0} (c : Codec D) where
  -- `_row_hash`
  pub row_hash_of : Text → Payload → Text
  row_hash_of prev_hash payload = c.sha256 (prev_hash ++ c.canonical payload)

  -- `_jsonify`, for values that `json.dumps(…, default=str)` can write
  abbrev pub jsonify : Param D → Option Text
  jsonify absent = none
  jsonify (text t) = some t
  jsonify (value v) = some (c.dumps v)

  abbrev pub payload_of : Event D → ℕ → Payload
  payload_of e now = record {
    ts = now;
    session_id = e.session_id;
    channel = e.channel;
    channel_user_id = e.channel_user_id;
    trust_level = e.trust_level;
    event_type = e.event_type;
    tool = e.tool;
    policy_verdict = e.policy_verdict;
    params_json = jsonify e.params;
    result_json = jsonify e.result;
  }

  unfoldable pub append : AuditDb → Event D → ℕ → AuditDb × ℕ
  append db e now =
      let payload = payload_of e now in
      let prev_hash = last_hash_of db.head in
      let count = count_of db.head in
      let row_hash = row_hash_of prev_hash payload in
      let new_id = db.last_rowid + 1 in
      (
        record {
          log =
              db.log
              ++ (record {
                id = new_id;
                payload = payload;
                prev_hash = prev_hash;
                row_hash = row_hash;
              })
                ∷ [];
          head = some (record { last_id = new_id; last_hash = row_hash; count = count + 1 });
          last_rowid = new_id;
        },
        new_id,
      )

  -- the loop of `verify_chain`
  pub walk : Text → List Row → Walk
  walk prev [] = reached prev
  walk prev (r ∷ rows) =
      let rest = walk r.row_hash rows in
      if not (r.prev_hash == prev)
      then stopped (broken_link r.id)
      else if not (r.row_hash == row_hash_of prev r.payload)
      then stopped (row_edited r.id)
      else rest

  pub verify_chain : AuditDb → Verdict
  verify_chain db =
      let expected = count_of db.head in
      if not (length db.log == expected)
      then rows_deleted (length db.log) expected
      else finish db.head (walk genesis db.log)
