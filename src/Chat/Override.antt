-- ===== src/Chat/Override.antt =====
-- The failover loop of glc/routes/chat.py for a request that names its provider.
use gateway_glc_v.Common.{
  ℕ, suc, ◌+◌, ◌≡◌, refl, ap, ◌∙◌, true, List, Option, none, some, length, arith, Option-cases, inl,
  inr,
}
use gateway_glc_v.Routing.Providers.{Provider}
use gateway_glc_v.Routing.Ring.{Router}
use gateway_glc_v.Chat.Upstream.{Upstream, Answer, replied, invalid_output, failed}
use gateway_glc_v.Chat.Failover.{
  Request, Chat, Outcome, after_answer, asking, round, picked, with_pick, rounds, serve,
}

module _ (r : Router) (u : Upstream) (clock : ℕ → ℕ) (q : Request)
    (override : q.explicit_override ≡ true) where
  answer-override :
      (name : Provider) (c : Chat) (a : Answer) (f g : Chat → Chat × Outcome)
      → after_answer r u clock q name c a f ≡ after_answer r u clock q name c a g
  answer-override name c (replied reply) f g = elim (Option-cases (u.response reply)) [
    | inl built ↦ rw (built, after_answer) refl
    | inr (why, raises) ↦ rw (raises, override, after_answer) refl
  ]
  answer-override name c invalid_output f g = refl
  answer-override name c (failed x) f g = rw override refl

  round-override :
      (c : Chat) (name : Option Provider) (f g : Provider → Chat → Chat × Outcome)
      → round r u clock q c name f ≡ round r u clock q c name g
  unfolding round
  round-override c none f g = refl
  round-override c (some name) f g =
      let (c', answer) = asking r u clock q c name in
      answer-override name c' answer (f name) (g name)

  rounds-override :
      (n m : ℕ) (candidates : List Provider) (c : Chat)
      → rounds r u clock q (suc n) candidates c ≡ rounds r u clock q (suc m) candidates c
  unfolding rounds
  rounds-override n m candidates c =
      let p = picked r u clock q c candidates in
      round-override (with_pick r u clock q c p) p.name _ _

  -- If the request names its provider, all its rounds do what one round does: no second provider is
  -- asked, whatever the first one answers.
  pub override_asks_one :
      (candidates : List Provider) (c : Chat)
      → serve r u clock q candidates c ≡ rounds r u clock q 1 candidates c
  unfolding serve
  override_asks_one candidates c =
      let n : length candidates + 1 ≡ suc (length candidates) = omega arith in
      ap (λ k. rounds r u clock q k candidates c) n
      ∙ rounds-override (length candidates) 0 candidates c
