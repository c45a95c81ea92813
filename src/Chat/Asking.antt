-- ===== src/Chat/Asking.antt =====
-- One provider that is asked: how many calls that takes, and what its reply is worth.
use gateway_glc_v.Common.{
  ℕ, ◌+◌, ◌≤◌, ◌≡◌, refl, Bool, true, not, ◌&&◌, arith, Bool-cases, inl, inr, eqb, Result, ok, err,
}
use gateway_glc_v.Routing.Providers.{Provider, provider_eq}
use gateway_glc_v.Chat.Upstream.{
  Upstream, Reply, Failure, Answer, Asked, replied, invalid_output, failed, ask_provider, ask_twice,
  retry, checked, fixed, request, fix, of_result,
}

-- A reply with tool calls is not checked; any other one has passed the check.
abbrev pub Valid : Upstream → Reply → Type 0
Valid u r = eqb r.tool_calls 0 ≡ true → u.validate r.text ≡ true

module _ (u : Upstream) (p : Provider) where
  retry-calls :
      (calls retries : ℕ) (again : ℕ → Answer) (x : Result Failure Reply)
      → (retry calls retries again x).calls ≤ calls + 2
  retry-calls calls retries again (ok r) = omega arith
  retry-calls calls retries again (err f) = ground arith

  checked-calls : (s : Bool) (a : Asked) (x : Answer) → (checked u p s a x).calls ≤ a.calls + 1
  checked-calls s a (replied r) = ground arith
  checked-calls s a invalid_output = omega arith
  checked-calls s a (failed f) = omega arith

  pub ask_provider-calls :
      (s : Bool) (calls retries : ℕ) → (ask_provider u p s calls retries).calls ≤ calls + 3
  unfolding ask_provider ask_twice
  ask_provider-calls s calls retries =
      let again : ℕ → Answer = λ n. of_result (u.ask n p request) in
      let a = retry calls retries again (u.ask calls p request) in
      omega
        (arith, retry-calls calls retries again (u.ask calls p request), checked-calls s a a.answer)

  fixed-Valid : (x : Result Failure Reply) (r : Reply) → fixed u x ≡ replied r → Valid u r
  fixed-Valid (ok y) r h t = ground arith
  fixed-Valid (err f) r h t = cc

  checked-Valid :
      (a : Asked) (x : Answer) (r : Reply)
      → a.answer ≡ x
      → (checked u p true a x).answer ≡ replied r
      → Valid u r
  checked-Valid a (replied y) r e h =
      elim (Bool-cases (eqb y.tool_calls 0 && not (u.validate y.text))) [
        | inl b ↦ fixed-Valid (u.ask a.calls p (fix y.text)) r (rw b at h)
        | inr b ↦ λ t. ground arith
      ]
  checked-Valid a invalid_output r e h = cc
  checked-Valid a (failed f) r e h = cc

  pub ask_provider-Valid :
      (calls retries : ℕ) (r : Reply)
      → (ask_provider u p true calls retries).answer ≡ replied r
      → Valid u r
  unfolding ask_provider
  ask_provider-Valid calls retries r h =
      checked-Valid (ask_twice u p calls retries) (ask_twice u p calls retries).answer r refl h
