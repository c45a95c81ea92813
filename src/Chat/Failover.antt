-- ===== src/Chat/Failover.antt =====
-- The failover loop of `chat`, for a request that is not streamed. The clock gives the n-th reading
-- that the code acts on; readings for latencies and the pauses between two tries are left out.
-- A write of the call log is taken to succeed.
use gateway_glc_v.Common.{
  ℕ, ◌+◌, Bool, true, false, not, ◌&&◌, ◌||◌, List, [], ◌∷◌, ◌++◌, map, Option, none, some,
  if◌then◌else◌, keep, ltb, length,
}
use gateway_glc_v.Common.Dict.{put}
use gateway_glc_v.Common.Text.{Text}
use gateway_glc_v.Routing.Providers.{Provider, provider_eq, same_provider, Capability}
use gateway_glc_v.Routing.RateState.{Unavailable, record_call, add_tokens, mark_unavailable}
use gateway_glc_v.Routing.Ring.{Router, Rates, Attempt, Picked, state_of, pick}
use gateway_glc_v.Chat.Backoff.{backoff_for}
use gateway_glc_v.Chat.Upstream.{
  Failure, Reply, Upstream, Answer, replied, invalid_output, failed, ask_provider,
}

-- The parts of the request that the loop reads.
pub record Request : Type 0 where
  pub est : ℕ
  pub required_caps : List Capability
  pub explicit_override : Bool
  pub has_model : Bool
  pub structured : Bool

-- `all_attempts`: a provider that was passed over, or one that was asked and failed.
pub data Tried : Type 0 where
  passed_over : Attempt → Tried
  gave_error : Provider → Failure → ℕ → Unavailable → Tried

pub data Status : Type 0 where
  status_ok status_error : Status

-- A row of the call log.
pub record Logged : Type 0 where
  pub provider : Provider
  pub status : Status
  pub retries : ℕ

pub record Chat : Type 0 where
  pub rates : Rates
  pub calls : ℕ
  pub retries : ℕ
  pub attempts : List Tried
  pub log : List Logged

pub data Outcome : Type 0 where
  answered : Provider → Reply → Outcome
  structured_failed : Outcome
  bad_gateway : Provider → Outcome
  all_unavailable : Outcome

abbrev pub others : Provider → List Provider → List Provider
others name candidates = keep (λ c. not (same_provider c name)) candidates

module _ (r : Router) (u : Upstream) (clock : ℕ → ℕ) (q : Request) where
  -- `state[name].record(0)`
  abbrev pub recorded : Rates → Provider → Rates
  recorded w name = record {
    state = put w.state name (record_call (state_of clock w name) 0 (clock w.reads));
    reads = w.reads + 1;
  }

  abbrev or_zero : Option ℕ → ℕ
  or_zero none = 0
  or_zero (some n) = n

  abbrev pub used : Rates → Provider → Reply → Rates
  used w name reply = record {
    state = put w.state name (
        add_tokens (state_of clock w name)
          (or_zero reply.input_tokens + or_zero reply.output_tokens) (clock w.reads));
    reads = w.reads + 1;
  }

  -- `if secs > 0: state[name].mark_unavailable(secs, reason)`
  abbrev pub rested : Rates → Provider → ℕ × Unavailable → Rates
  rested w name (seconds, why) =
      if ltb 0 seconds
      then record {
        state =
            put w.state name (mark_unavailable (state_of clock w name) seconds why (clock w.reads));
        reads = w.reads + 1;
      }
      else w

  abbrev pub log_call : List Logged → Provider → Status → ℕ → List Logged
  log_call log name s retries =
      log ++ (record { provider = name; status = s; retries = retries }) ∷ []

  abbrev pub with_reply : Chat → Provider → Reply → Chat
  with_reply c name reply = record c {
    rates = used c.rates name reply;
    log = log_call c.log name status_ok c.retries;
  }

  abbrev pub rest_for : Failure → ℕ × Unavailable
  rest_for f = backoff_for f.status f.message q.has_model

  abbrev pub with_failure : Chat → Provider → Failure → Chat
  with_failure c name f = record c {
    rates = rested c.rates name (rest_for f);
    log = log_call c.log name status_error c.retries;
    attempts = c.attempts ++ gave_error name f (rest_for f).0 (rest_for f).1 ∷ [];
  }

  -- no other provider is asked
  abbrev pub final : Failure → Bool
  final f = q.explicit_override || (f.provider_error && not f.retryable)

  -- the handler of an exception
  abbrev pub after_failure : Provider → Chat → Failure → (Chat → Chat × Outcome) → Chat × Outcome
  after_failure name c f next =
      if final f then (with_failure c name f, bad_gateway name) else next (with_failure c name f)

  -- what is raised where the response is built is no `ProviderError` and has no status
  abbrev pub not_built : Text → Failure
  not_built why = record { provider_error = false; status = none; message = why; retryable = true }

  -- The row of the reply stands in the log before the response is built.
  abbrev pub after_answer : Provider → Chat → Answer → (Chat → Chat × Outcome) → Chat × Outcome
  after_answer name c (replied reply) next = elim (u.response reply) [
    | none ↦ (with_reply c name reply, answered name reply)
    | some why ↦ after_failure name (with_reply c name reply) (not_built why) next
  ]
  after_answer name c invalid_output next = (c, structured_failed)
  after_answer name c (failed f) next = after_failure name c f next

  abbrev pub asking : Chat → Provider → Chat × Answer
  asking c name =
      let a = ask_provider u name q.structured c.calls c.retries in
      (record c { rates = recorded c.rates name; calls = a.calls; retries = a.retries }, a.answer)

  -- One round, with what was picked; `next` is the next round without this provider.
  unfoldable pub round :
      Chat → Option Provider → (Provider → Chat → Chat × Outcome) → Chat × Outcome
  round c none next = (c, all_unavailable)
  round c (some name) next =
      let (c', answer) = asking c name in after_answer name c' answer (next name)

  abbrev pub picked : Chat → List Provider → Picked
  picked c candidates = pick r clock c.rates q.est candidates q.required_caps

  abbrev pub with_pick : Chat → Picked → Chat
  with_pick c p = record c { rates = p.rates; attempts = c.attempts ++ map passed_over p.attempts }

  -- The loop for a number of rounds.
  unfoldable pub rounds : ℕ → List Provider → Chat → Chat × Outcome
  rounds ℕ.zero candidates c = (c, all_unavailable)
  rounds (ℕ.suc n) candidates c =
      let p = picked c candidates in
      round (with_pick c p) p.name (λ name c'. rounds n (others name candidates) c')

  -- `for _ in range(len(candidates) + 1)`
  unfoldable pub serve : List Provider → Chat → Chat × Outcome
  serve candidates c = rounds (length candidates + 1) candidates c
