-- ===== src/Routing/Quota.antt =====
-- The state of one provider over a sequence of calls, failures and status reports.
use gateway_glc_v.Common.{
  ℕ, ◌+◌, ◌-◌, ◌*◌, ◌≤◌, ◌<◌, ◌≡◌, List, [], ◌∷◌, Option, none, some, length, length-append, arith,
  Option-cases, inl, inr, sec, minute,
}
use gateway_glc_v.Routing.Providers.{Limits}
use gateway_glc_v.Routing.RateState.{
  RateState, Readings, Skip, backoff, Unavailable, new_state, drop_calls, gc, refusal, can_use,
  record_call, add_tokens, mark_unavailable, snapshot,
}
use gateway_glc_v.Routing.Pick.{refusal-MayUse}

-- What requests do with a provider: a test that records the call at once if it is admitted, a test
-- alone, the tokens of an answer, a failure that sets a backoff, or a status report.
pub data Op : Type 0 where
  call : ℕ → Readings → ℕ → Op
  test : ℕ → Readings → Op
  used : ℕ → ℕ → Op
  unavailable : ℕ → Unavailable → ℕ → Op
  status : Readings → Op

abbrev record_if : RateState × Option Skip → ℕ → RateState
record_if (s, none) now = record_call s 0 now
record_if (s, some why) now = s

abbrev step : Limits → RateState → Op → RateState
step l s (call est t now) = record_if (can_use s l est t) now
step l s (test est t) = (can_use s l est t).0
step l s (used tokens now) = add_tokens s tokens now
step l s (unavailable seconds why now) = mark_unavailable s seconds why now
step l s (status t) = (snapshot s l t).0

unfoldable pub run : Limits → RateState → List Op → RateState
run l s [] = s
run l s (o ∷ os) = run l (step l s o) os

record Within (l : Limits) (s : RateState) : Type 0 where
  pub minute_ok : length s.calls_minute ≤ l.rpm
  pub day_ok : s.calls_today ≤ l.rpd

drop_calls-length : (cutoff : ℕ) (ts : List ℕ) → length (drop_calls cutoff ts) ≤ length ts
unfolding drop_calls
drop_calls-length cutoff [] = omega arith
drop_calls-length cutoff (t ∷ ts) = ground (arith, drop_calls-length cutoff ts)

gc-Within :
    (l : Limits) (s : RateState) (now day_now : ℕ) → Within l s → Within l (gc s now day_now)
unfolding gc
gc-Within l s now day_now h = record {
  minute_ok = ground (arith, h.minute_ok, drop_calls-length (now - minute) s.calls_minute);
  day_ok = ground (arith, h.day_ok);
}

record_call-Within :
    (l : Limits) (s : RateState) (tokens now : ℕ)
    → length s.calls_minute < l.rpm
    → s.calls_today < l.rpd
    → Within l (record_call s tokens now)
unfolding record_call
record_call-Within l s tokens now hm hd = record {
  minute_ok = omega (arith, hm, length-append s.calls_minute (now ∷ []));
  day_ok = omega (arith, hd);
}

step-Within : (l : Limits) (s : RateState) (o : Op) → Within l s → Within l (step l s o)
unfolding can_use snapshot mark_unavailable add_tokens
step-Within l s (call est t now) h =
    let s' = gc s t.gc_now t.day_now in
    elim (Option-cases (refusal s' l est t.now)) [
      | inl p ↦
          let m = refusal-MayUse s' l est t.now p in
          rw p (record_call-Within l s' 0 now m.calls_left m.calls_left_today)
      | inr (why, p) ↦ rw p (gc-Within l s t.gc_now t.day_now h)
    ]
step-Within l s (test est t) h = gc-Within l s t.gc_now t.day_now h
step-Within l s (used tokens now) h = record { minute_ok = h.minute_ok; day_ok = h.day_ok }
step-Within l s (unavailable seconds why now) h = record {
  minute_ok = h.minute_ok;
  day_ok = h.day_ok;
}
step-Within l s (status t) h = gc-Within l s t.gc_now t.day_now h

run-Within : (l : Limits) (s : RateState) (os : List Op) → Within l s → Within l (run l s os)
unfolding run
run-Within l s [] h = h
run-Within l s (o ∷ os) h = run-Within l (step l s o) os (step-Within l s o h)

-- From a new state, whatever the requests do with the provider, in any order and at any times, the
-- calls that are kept for the last minute are at most `rpm`, and those of the day at most `rpd`.
pub run_within_quota :
    (l : Limits) (start : ℕ) (os : List Op)
    → (length (run l (new_state start) os).calls_minute ≤ l.rpm)
      × ((run l (new_state start) os).calls_today ≤ l.rpd)
unfolding new_state
run_within_quota l start os =
    let h =
      run-Within l (new_state start) os
        (record { minute_ok = omega arith; day_ok = omega arith }) in
    (h.minute_ok, h.day_ok)

-- A provider that was marked unavailable is refused, with the why and the time that is left,
-- until that many seconds have passed, whatever its limits and the size of the call.
pub marked_is_refused :
    (l : Limits) (s : RateState) (seconds est now : ℕ) (why : Unavailable) (t : Readings)
    → t.now < now + seconds * sec
    → (can_use (mark_unavailable s seconds why now) l est t).1
      ≡ some (backoff why (now + seconds * sec - t.now))
unfolding can_use mark_unavailable gc refusal
marked_is_refused l s seconds est now why t h = ground arith
