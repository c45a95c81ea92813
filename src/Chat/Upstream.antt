-- ===== src/Chat/Upstream.antt =====
-- One provider asked by `chat`: the retry after a passing failure, and the second try when the reply
-- does not match the JSON schema that was asked for. The provider and the validator are arguments.
use gateway_glc_v.Common.{
  ℕ, ◌+◌, Bool, not, ◌&&◌, ◌||◌, Option, if◌then◌else◌, eqb, Result, ok, err,
}
use gateway_glc_v.Common.Text.{Text, codes, lower, has_part}
use gateway_glc_v.Routing.Providers.{Provider}
use gateway_glc_v.Chat.Backoff.{is_status, server_error}

-- An exception: a `ProviderError` with its `retryable`, or any other one.
pub record Failure : Type 0 where
  pub provider_error : Bool
  pub status : Option ℕ
  pub message : Text
  pub retryable : Bool

pub record Reply : Type 0 where
  pub text : Text
  pub tool_calls : ℕ
  pub input_tokens : Option ℕ
  pub output_tokens : Option ℕ

-- What is asked for: the request, or the request with the invalid reply to be corrected.
pub data Ask : Type 0 where
  request : Ask
  fix : Text → Ask

-- The n-th call of a provider, whether a text is valid JSON of the schema, and the message of the
-- exception that `ChatResponse(...)`, with its `ToolCall`s, raises for a reply, if it raises one.
pub record Upstream : Type 0 where
  pub ask : ℕ → Provider → Ask → Result Failure Reply
  pub validate : Text → Bool
  pub response : Reply → Option Text

pub data Answer : Type 0 where
  replied : Reply → Answer
  invalid_output : Answer
  failed : Failure → Answer

-- The answer, with the number of calls so far and of retries so far.
pub record Asked : Type 0 where
  pub calls : ℕ
  pub retries : ℕ
  pub answer : Answer

abbrev pub transient : Failure → Bool
transient f =
    server_error f.status || is_status f.status 408 || has_part (lower f.message) (codes "timeout")

abbrev asked : ℕ → ℕ → Answer → Asked
asked calls retries answer = record { calls = calls; retries = retries; answer = answer }

abbrev pub of_result : Result Failure Reply → Answer
of_result (ok r) = replied r
of_result (err f) = failed f

abbrev pub retry : ℕ → ℕ → (ℕ → Answer) → Result Failure Reply → Asked
retry calls retries again (ok r) = asked (calls + 1) retries (replied r)
retry calls retries again (err f) =
    if transient f
    then asked (calls + 2) (retries + 1) (again (calls + 1))
    else asked (calls + 1) retries (failed f)

-- `provider.chat`, once more after a passing failure
unfoldable pub ask_twice : Upstream → Provider → ℕ → ℕ → Asked
ask_twice u p calls retries =
    retry calls retries (λ n. of_result (u.ask n p request)) (u.ask calls p request)

abbrev pub fixed : Upstream → Result Failure Reply → Answer
fixed u (ok r) = if u.validate r.text then replied r else invalid_output
fixed u (err f) = failed f

-- the check of a structured reply, with one more try
abbrev pub checked : Upstream → Provider → Bool → Asked → Answer → Asked
checked u p structured a (replied r) =
    if structured && eqb r.tool_calls 0 && not (u.validate r.text)
    then asked (a.calls + 1) a.retries (fixed u (u.ask a.calls p (fix r.text)))
    else a
checked u p structured a invalid_output = a
checked u p structured a (failed f) = a

-- `structured` tells that the request has a `response_format` with a schema
unfoldable pub ask_provider : Upstream → Provider → Bool → ℕ → ℕ → Asked
unfolding ask_twice
ask_provider u p structured calls retries =
    let a = ask_twice u p calls retries in checked u p structured a a.answer
