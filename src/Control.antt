-- ===== src/Control.antt =====
-- glc/routes/control.py: the control plane, and the middleware of glc/main.py that stands before
-- every HTTP route. The install token of glc/config.py and the random bytes of a code are arguments.
pub mod Guarded
mod Tests
use gateway_glc_v.Common.{
  ℕ, ◌-◌, ◌/◌, String, String-eq, ◌==◌, Bool, true, false, not, ◌&&◌, ◌||◌, List, [], ◌∷◌, Option,
  none, some, if◌then◌else◌, Result, ok, err, ◌>>=◌, guard, ◌>>◌, sec,
}
use gateway_glc_v.Common.Text.{Text, codes, starts_with, remove_prefix, strip, text_beq}
use gateway_glc_v.Pairing.{
  PairingStore, PairingRecord, issue_code, confirm_code, all_pairings, code_ttl_seconds,
}

-- The answers that are not 200.
pub data Refused : Type 0 where
  missing_token : Refused
  token_mismatch : Refused
  bad_trust_level : String → Refused
  code_unknown : Refused
  not_loopback : String → Refused

-- an absent header and an empty one are alike
abbrev bearer : Option Text → Option Text
bearer none = none
bearer (some h) =
    if starts_with h (codes "Bearer ")
    then some (strip (remove_prefix h (codes "Bearer ")))
    else none

abbrev compare_token : Option Text → Text → Result Refused (Unit {0})
compare_token none expected = err missing_token
compare_token (some presented) expected = guard (text_beq presented expected) token_mismatch

-- `_require_token`
unfoldable pub require_token : Option Text → Text → Result Refused (Unit {0})
require_token header expected = compare_token (bearer header) expected

-- `require_install_token`: the middleware; `call_next` is the route
unfoldable pub middleware {ℓ} :
    {A : Type ℓ} → String → Option Text → Text → Result Refused A → Result Refused A
unfolding require_token
middleware path header expected call_next =
    let guarded = (require_token header expected) >> call_next in
    if path == "/healthz" then call_next else guarded

pub record PairRequest : Type 0 where
  pub channel : String
  pub channel_user_id : String
  pub user_handle : String
  pub trust_level : String

pub record PairResponse : Type 0 where
  pub code : Text
  pub expires_at : ℕ
  pub ttl_seconds : ℕ

abbrev pair_response : PairingStore × (Text × ℕ) → PairingStore × PairResponse
pair_response (s, (code, expires_at)) =
    (s, record { code = code; expires_at = expires_at; ttl_seconds = code_ttl_seconds })

-- A handler gives the new store with its answer, or refuses and leaves the store as it was.
unfoldable pub pair :
    PairingStore
    → PairRequest
    → Option Text
    → Text
    → ℕ
    → ℕ
    → Result Refused (PairingStore × PairResponse)
pair s req header expected random now = do
  require_token header expected
  guard (req.trust_level == "user_paired" || req.trust_level == "owner_paired")
      (bad_trust_level req.trust_level)
  ok (
      pair_response
        (issue_code s req.channel req.channel_user_id req.user_handle req.trust_level random now))

-- The store is kept, with or without a record: an expired code is deleted by the refused call too.
pub record Confirmed : Type 0 where
  pub store : PairingStore
  pub answer : Result Refused PairingRecord

abbrev confirmed : PairingStore × Option PairingRecord → Confirmed
confirmed (s, none) = record { store = s; answer = err code_unknown }
confirmed (s, some rec) = record { store = s; answer = ok rec }

abbrev after_token : PairingStore → Result Refused (Unit {0}) → Confirmed → Confirmed
after_token s (ok _) c = c
after_token s (err e) c = record { store = s; answer = err e }

unfoldable pub pair_confirm : PairingStore → Text → Option Text → Text → ℕ → ℕ → Confirmed
pair_confirm s code header expected now paired_at =
    after_token s (require_token header expected) (confirmed (confirm_code s code now paired_at))

pub record Presence : Type 0 where
  pub channels : List String
  pub paired_users : List PairingRecord
  pub uptime_s : ℕ

-- for a clock that has not been set back behind the start
unfoldable pub presence :
    PairingStore → List String → ℕ → Option Text → Text → ℕ → Result Refused Presence
presence s channels started header expected now = do
  require_token header expected
  ok (record {
    channels = channels;
    paired_users = all_pairings s;
    uptime_s = (now - started) / sec;
  })

abbrev pub or_unknown : Option String → String
or_unknown none = "unknown"
or_unknown (some host) = host

abbrev pub is_loopback : String → Bool
is_loopback host = host == "127.0.0.1" || host == "::1" || host == "localhost"

abbrev pub allows_remote : Option String → Bool
allows_remote none = false
allows_remote (some v) = v == "1"

-- `ok tt` is the answer "terminating", with the signal on its way
unfoldable pub kill : Option String → Option String → Option Text → Text → Result Refused (Unit {0})
kill allow_remote client_host header expected = do
  require_token header expected
  guard (allows_remote allow_remote || is_loopback (or_unknown client_host))
      (not_loopback (or_unknown client_host))
