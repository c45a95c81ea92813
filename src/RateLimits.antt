-- ===== src/RateLimits.antt =====
-- glc/security/rate_limits.py: sliding one-minute windows for each (channel, channel_user_id).
-- A check takes the time that it reads. A number of channels.yaml is a natural number.
mod Sweep
pub mod History
pub mod Pace
mod Tests
use gateway_glc_v.Common.{
  ℕ, ◌-◌, String, List, [], ◌∷◌, ◌++◌, Option, none, some, ltb, leb, if◌then◌else◌, length, minute,
}
use gateway_glc_v.Common.Dict.{Dict, get, put}
use gateway_glc_v.Common.{pair_eq, String-eq}

pub data Kind : Type 0 where
  messages tool_calls : Kind

-- `_Window`: the deques, oldest entry first
pub record Window : Type 0 where
  pub messages : List ℕ
  pub tool_calls : List ℕ

pub record Limits : Type 0 where
  pub messages_per_minute : ℕ
  pub tool_calls_per_minute : ℕ

pub record RateLimiter : Type 0 where
  pub default_mpm : ℕ
  pub default_tpm : ℕ
  pub per_channel : Dict String Limits
  pub state : Dict (String × String) Window

abbrev pub no_calls : Window
no_calls = record { messages = []; tool_calls = [] }

unfoldable pub new : ℕ → ℕ → RateLimiter
new mpm tpm = record { default_mpm = mpm; default_tpm = tpm; per_channel = []; state = [] }

-- `_gc`
unfoldable pub gc : List ℕ → ℕ → List ℕ
gc [] horizon = []
gc (t ∷ dq) horizon = let rest = gc dq horizon in if ltb t horizon then rest else t ∷ dq

-- The parts of channels.yaml that the limiter reads; a `rate_limits` block is a dictionary.
pub record ChannelsYaml : Type 0 where
  pub defaults_rate_limits : Dict String ℕ
  pub channels : Dict String (Dict String ℕ)

abbrev pub int_or : Option ℕ → ℕ → ℕ
int_or none d = d
int_or (some n) d = n

abbrev pub block_limits : Dict String ℕ → ℕ → ℕ → Limits
block_limits rl mpm tpm = record {
  messages_per_minute = int_or (get rl "messages_per_minute") mpm;
  tool_calls_per_minute = int_or (get rl "tool_calls_per_minute") tpm;
}

-- an empty block is skipped
configure_channels : Dict String (Dict String ℕ) → ℕ → ℕ → Dict String Limits → Dict String Limits
configure_channels [] mpm tpm per = per
configure_channels ((ch, []) ∷ rest) mpm tpm per = configure_channels rest mpm tpm per
configure_channels ((ch, kv ∷ rl) ∷ rest) mpm tpm per =
    configure_channels rest mpm tpm (put per ch (block_limits (kv ∷ rl) mpm tpm))

unfoldable pub configure_from_yaml : RateLimiter → ChannelsYaml → RateLimiter
unfolding configure_channels
configure_from_yaml s yaml =
    let mpm = int_or (get yaml.defaults_rate_limits "messages_per_minute") s.default_mpm in
    let tpm = int_or (get yaml.defaults_rate_limits "tool_calls_per_minute") s.default_tpm in
    record s {
      default_mpm = mpm;
      default_tpm = tpm;
      per_channel = configure_channels yaml.channels mpm tpm s.per_channel;
    }

abbrev or_defaults : Option Limits → ℕ → ℕ → Limits
or_defaults none mpm tpm = record { messages_per_minute = mpm; tool_calls_per_minute = tpm }
or_defaults (some cfg) mpm tpm = cfg

unfoldable pub limits_for : RateLimiter → String → Limits
limits_for s channel = or_defaults (get s.per_channel channel) s.default_mpm s.default_tpm

abbrev pub cap_of : Kind → Limits → ℕ
cap_of messages l = l.messages_per_minute
cap_of tool_calls l = l.tool_calls_per_minute

abbrev pub deque : Kind → Window → List ℕ
deque messages w = w.messages
deque tool_calls w = w.tool_calls

abbrev pub set_deque : Kind → Window → List ℕ → Window
set_deque messages w dq = record w { messages = dq }
set_deque tool_calls w dq = record w { tool_calls = dq }

-- The message `{kind} limit {cap}/min exceeded for ({channel}, {user_id})`.
pub data Exceeded : Type 0 where
  exceeded : Kind → ℕ → String → String → Exceeded

abbrev or_new : Option Window → Window
or_new none = no_calls
or_new (some w) = w

-- The window of a key as `setdefault` returns it.
unfoldable pub window : RateLimiter → String → String → Window
window s channel user = or_new (get s.state (channel, user))

-- `_check`: `none` is `(True, "")`. The swept deque is stored in either case.
unfoldable pub check : RateLimiter → String → String → Kind → ℕ → RateLimiter × Option Exceeded
check s channel user kind now =
    let cap = cap_of kind (limits_for s channel) in
    let w = window s channel user in
    let dq = gc (deque kind w) (now - minute) in
    let store =
      λ (q : List ℕ). record s { state = put s.state (channel, user) (set_deque kind w q) } in
    if leb cap (length dq)
    then (store dq, some (exceeded kind cap channel user))
    else (store (dq ++ now ∷ []), none)

unfoldable pub check_message : RateLimiter → String → String → ℕ → RateLimiter × Option Exceeded
check_message s channel user now = check s channel user messages now

unfoldable pub check_tool_call : RateLimiter → String → String → ℕ → RateLimiter × Option Exceeded
check_tool_call s channel user now = check s channel user tool_calls now

-- `get_rate_limiter`, at its first call
unfoldable pub get_rate_limiter : ChannelsYaml → RateLimiter
unfolding new configure_from_yaml
get_rate_limiter yaml = configure_from_yaml (new 30 20) yaml
