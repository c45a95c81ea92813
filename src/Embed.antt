-- ===== src/Embed.antt =====
-- glc/embedders.py: the rate state of an embedder, and the ring of `embed_with_failover`.
-- The clock gives the n-th reading; an embedder's answer to a request is an argument.
pub mod Ring
mod Tests
use gateway_glc_v.Common.{
  ℕ, zero, suc, ◌+◌, ◌-◌, ◌*◌, Bool, true, false, ◌&&◌, keep, List, [], ◌∷◌, ◌++◌, Option, none,
  some, if◌then◌else◌, ltb, leb, length, Result, ok, err, sec, minute,
}
use gateway_glc_v.Common.Text.{Text, text_beq}
use gateway_glc_v.Routing.RateState.{drop_calls}

-- `cooldown` is a number of microseconds.
pub record EmbedRateState : Type 0 where
  pub rpm : ℕ
  pub cooldown : ℕ
  pub calls_minute : List ℕ
  pub last_call : ℕ
  pub unavailable_until : ℕ
  pub unavailable_reason : Text
  pub backoff_step : ℕ

pub data Wait : Type 0 where
  backoff : Text → ℕ → Wait
  cooling : ℕ → Wait
  rpm_limit : ℕ → Wait

-- BACKOFF_STEPS, with the last step for all that follow
abbrev pub backoff_seconds : ℕ → ℕ
backoff_seconds zero = 5
backoff_seconds (suc zero) = 10
backoff_seconds (suc (suc _)) = 15

-- `s[:n]`
abbrev take : ℕ → Text → Text
take zero s = []
take (suc n) [] = []
take (suc n) (c ∷ s) = c ∷ take n s

-- `_gc`
unfoldable pub gc : EmbedRateState → ℕ → EmbedRateState
gc s now = record s { calls_minute = drop_calls (now - minute) s.calls_minute }

abbrev pub refusal : EmbedRateState → ℕ → Option Wait
refusal s now =
    if ltb now s.unavailable_until
    then some (backoff s.unavailable_reason (s.unavailable_until - now))
    else if ltb 0 s.cooldown && ltb now (s.last_call + s.cooldown)
    then some (cooling (s.last_call + s.cooldown - now))
    else if ltb 0 s.rpm && leb s.rpm (length s.calls_minute)
    then some (rpm_limit s.rpm)
    else none

unfoldable pub can_use : EmbedRateState → ℕ → ℕ → EmbedRateState × Option Wait
can_use s gc_now now = let s' = gc s gc_now in (s', refusal s' now)

-- `record`
unfoldable pub record_success : EmbedRateState → ℕ → EmbedRateState
record_success s now = record s {
  calls_minute = s.calls_minute ++ now ∷ [];
  last_call = now;
  backoff_step = 0;
  unavailable_until = 0;
  unavailable_reason = [];
}

unfoldable pub mark_failure : EmbedRateState → Text → ℕ → EmbedRateState
mark_failure s why now = record s {
  backoff_step = s.backoff_step + 1;
  unavailable_until = now + backoff_seconds s.backoff_step * sec;
  unavailable_reason = take 80 why;
}

-- The states of the embedders by name: an embedder that stands twice in EMBED_ORDER is one object.
abbrev pub States : Type 0
States = Text → EmbedRateState

abbrev pub set : States → Text → EmbedRateState → States
set states name s other = if text_beq other name then s else states other

pub data EmbedAttempt : Type 0 where
  skipped : Text → Wait → EmbedAttempt
  gave_error : Text → Text → EmbedAttempt

pub data EmbedOutcome (Out : Type 0) : Type 0 where
  embedded : Text → Out → EmbedOutcome Out
  unavailable_429 : Text → Wait → EmbedOutcome Out
  raised : Text → Text → EmbedOutcome Out
  unknown_embedder : EmbedOutcome Out
  all_unavailable : EmbedOutcome Out

-- The states behind the request, what was tried, and the outcome.
pub record Embedded (Out : Type 0) : Type 0 where
  pub states : States
  pub attempts : List EmbedAttempt
  pub outcome : EmbedOutcome Out

-- `if explicit`: an empty name is no name
abbrev pub is_explicit : Option Text → Bool
is_explicit none = false
is_explicit (some []) = false
is_explicit (some (c ∷ name)) = true

abbrev pub is_wanted : Option Text → Text → Bool
is_wanted none e = true
is_wanted (some []) e = true
is_wanted (some (c ∷ name)) e = text_beq e (c ∷ name)

abbrev pub is_nil : List Text → Bool
is_nil [] = true
is_nil (e ∷ es) = false

module _ {Out : Type 0} (clock : ℕ → ℕ) (ask : ℕ → Text → Result Text Out)
    (explicit : Option Text) where
  abbrev pub stop : States → List EmbedAttempt → EmbedOutcome Out → Embedded Out
  stop states attempts o = record { states = states; attempts = attempts; outcome = o }

  abbrev pub pass : EmbedAttempt → Embedded Out → Embedded Out
  pass a rest = record rest { attempts = a ∷ rest.attempts }

  -- what is done with the answer of an embedder; an error is its first 200 characters
  abbrev pub after_ask :
      Text
      → EmbedRateState
      → States
      → ℕ
      → Result Text Out
      → (ℕ → States → Embedded Out)
      → Embedded Out
  after_ask e s states n (ok out) next =
      stop (set states e (record_success s (clock n))) [] (embedded e out)
  after_ask e s states n (err why) next =
      let states' = set states e (mark_failure s why (clock n)) in
      if is_explicit explicit
      then stop states' (gave_error e why ∷ []) (raised e why)
      else pass (gave_error e why) (next (n + 1) states')

  abbrev pub try_embedder :
      Text → EmbedRateState × Option Wait → States → ℕ → (ℕ → States → Embedded Out) → Embedded Out
  try_embedder e (s, none) states n next = after_ask e s states n (ask n e) next
  try_embedder e (s, some why) states n next =
      if is_explicit explicit
      then stop (set states e s) (skipped e why ∷ []) (unavailable_429 e why)
      else pass (skipped e why) (next n (set states e s))

  -- the loop over the candidates
  unfoldable pub embed_ring : List Text → ℕ → States → Embedded Out
  embed_ring [] n states = stop states [] all_unavailable
  embed_ring (e ∷ es) n states =
      try_embedder e (can_use (states e) (clock n) (clock (n + 1))) states (n + 2)
        (λ n' states'. embed_ring es n' states')

  -- `embed_with_failover`; an empty ring is not unknown when no embedder is named
  unfoldable pub embed_with_failover : List Text → ℕ → States → Embedded Out
  embed_with_failover embedders n states =
      let candidates = keep (is_wanted explicit) embedders in
      let ring = embed_ring candidates n states in
      if is_explicit explicit && is_nil candidates then stop states [] unknown_embedder else ring
