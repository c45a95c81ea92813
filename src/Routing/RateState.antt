-- ===== src/Routing/RateState.antt =====
-- `RateState` of glc/routing.py. Each method takes the times that it reads, in their order.
use gateway_glc_v.Common.{
  ℕ, ◌+◌, ◌-◌, ◌*◌, ◌%◌, Bool, false, List, [], ◌∷◌, ◌++◌, Option, none, some, if◌then◌else◌, ltb,
  leb, length, sec, minute,
}
use gateway_glc_v.Routing.Providers.{Limits}

-- Why a provider was made unavailable, and why a call is put off.
pub data Unavailable : Type 0 where
  no_reason queue_full rpm_burned rpd_burned rate_limited timeout auth_error : Unavailable
  upstream : ℕ → Unavailable

pub record RateState : Type 0 where
  pub calls_minute : List ℕ
  pub tokens_minute : List (ℕ × ℕ)
  pub calls_today : ℕ
  pub tokens_today : ℕ
  pub day_start : ℕ
  pub last_call : ℕ
  pub unavailable_until : ℕ
  pub unavailable_reason : Unavailable

abbrev pub day : ℕ
day = 86400000000

abbrev day_begin : ℕ → ℕ
day_begin now = now - now % day

unfoldable pub new_state : ℕ → RateState
new_state now = record {
  calls_minute = [];
  tokens_minute = [];
  calls_today = 0;
  tokens_today = 0;
  day_start = day_begin now;
  last_call = 0;
  unavailable_until = 0;
  unavailable_reason = no_reason;
}

-- the two `while` loops of `gc`
unfoldable pub drop_calls : ℕ → List ℕ → List ℕ
drop_calls cutoff [] = []
drop_calls cutoff (t ∷ ts) =
    let rest = drop_calls cutoff ts in if ltb t cutoff then rest else t ∷ ts

unfoldable pub drop_tokens : ℕ → List (ℕ × ℕ) → List (ℕ × ℕ)
drop_tokens cutoff [] = []
drop_tokens cutoff ((t, n) ∷ ts) =
    let rest = drop_tokens cutoff ts in if ltb t cutoff then rest else (t, n) ∷ ts

abbrev roll_over : RateState → ℕ → ℕ → RateState
roll_over s now day_now =
    if leb day (now - s.day_start)
    then record s { calls_today = 0; tokens_today = 0; day_start = day_begin day_now }
    else s

-- `day_now` is the reading of `_day_start` behind a rollover
unfoldable pub gc : RateState → ℕ → ℕ → RateState
gc s now day_now =
    let s' = roll_over s now day_now in
    record s' {
      calls_minute = drop_calls (now - minute) s'.calls_minute;
      tokens_minute = drop_tokens (now - minute) s'.tokens_minute;
    }

-- The second part of the answer of `can_use` and of the router's tests.
pub data Skip : Type 0 where
  backoff : Unavailable → ℕ → Skip
  cooldown : ℕ → Skip
  rpm_limit rpd_limit tpm_limit daily_token_cap : Skip

abbrev pub sum_tokens : List (ℕ × ℕ) → ℕ
sum_tokens [] = 0
sum_tokens ((t, n) ∷ ts) = n + sum_tokens ts

abbrev pub over_day : Option ℕ → ℕ → Bool
over_day none n = false
over_day (some cap) n = ltb cap n

-- `can_use` behind its `gc`; the wait is positive if `now` comes before `last_call` plus cooldown
unfoldable pub refusal : RateState → Limits → ℕ → ℕ → Option Skip
refusal s l est_tokens now =
    if ltb now s.unavailable_until
    then some (backoff s.unavailable_reason (s.unavailable_until - now))
    else if ltb now (s.last_call + l.cooldown * sec)
    then some (cooldown (s.last_call + l.cooldown * sec - now))
    else if leb l.rpm (length s.calls_minute)
    then some rpm_limit
    else if leb l.rpd s.calls_today
    then some rpd_limit
    else if ltb l.tpm (sum_tokens s.tokens_minute + est_tokens)
    then some tpm_limit
    else if over_day l.tokens_per_day (s.tokens_today + est_tokens)
    then some daily_token_cap
    else none

-- The three times that `can_use` reads: in `gc`, behind a rollover, and its own.
pub record Readings : Type 0 where
  pub gc_now : ℕ
  pub day_now : ℕ
  pub now : ℕ

-- `none` is `(True, None)`
unfoldable pub can_use : RateState → Limits → ℕ → Readings → RateState × Option Skip
can_use s l est_tokens t = let s' = gc s t.gc_now t.day_now in (s', refusal s' l est_tokens t.now)

-- `record`
unfoldable pub record_call : RateState → ℕ → ℕ → RateState
record_call s tokens now = record s {
  calls_minute = s.calls_minute ++ now ∷ [];
  tokens_minute = s.tokens_minute ++ (now, tokens) ∷ [];
  calls_today = s.calls_today + 1;
  tokens_today = s.tokens_today + tokens;
  last_call = now;
}

-- the tokens of a call, once its answer is there (glc/routes/chat.py)
unfoldable pub add_tokens : RateState → ℕ → ℕ → RateState
add_tokens s tokens now = record s {
  tokens_today = s.tokens_today + tokens;
  tokens_minute = s.tokens_minute ++ (now, tokens) ∷ [];
}

unfoldable pub mark_unavailable : RateState → ℕ → Unavailable → ℕ → RateState
mark_unavailable s seconds why now = record s {
  unavailable_until = now + seconds * sec;
  unavailable_reason = why;
}

-- What `snapshot` reports, less the limits that it repeats.
pub record Snapshot : Type 0 where
  pub rpm_used : ℕ
  pub rpd_used : ℕ
  pub tpm_used : ℕ
  pub tokens_today : ℕ
  pub cooldown_remaining : ℕ
  pub last_call : ℕ
  pub backoff_remaining : ℕ
  pub backoff_reason : Unavailable

-- `-` stops at 0, as `max(0, …)` does
unfoldable pub snapshot : RateState → Limits → Readings → RateState × Snapshot
snapshot s l t =
    let s' = gc s t.gc_now t.day_now in
    (
      s',
      record {
        rpm_used = length s'.calls_minute;
        rpd_used = s'.calls_today;
        tpm_used = sum_tokens s'.tokens_minute;
        tokens_today = s'.tokens_today;
        cooldown_remaining =
            if ltb 0 s'.last_call then s'.last_call + l.cooldown * sec - t.now else 0;
        last_call = s'.last_call;
        backoff_remaining = s'.unavailable_until - t.now;
        backoff_reason =
            if ltb t.now s'.unavailable_until then s'.unavailable_reason else no_reason;
      },
    )
