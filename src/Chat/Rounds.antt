-- ===== src/Chat/Rounds.antt =====
-- The number of rounds of the failover loop of glc/routes/chat.py.
use mathlib.Core.Path.{subst}
use gateway_glc_v.Common.{
  ℕ, zero, suc, ◌≤◌, ◌<◌, ◌≡◌, refl, Bool, not, List, [], ◌∷◌, ◌++◌, map, Option, none, some, keep,
  length, arith, Bool-cases, Option-cases, inl, inr,
}
use gateway_glc_v.Routing.Providers.{Provider, provider_eq, same_provider, same_provider_iff}
use gateway_glc_v.Routing.Ring.{Router, Rates, Picked}
use gateway_glc_v.Routing.Pick.{FirstFit, Chosen, left_by, pick-FirstFit}
use gateway_glc_v.Chat.Upstream.{Upstream, Failure, Answer, replied, invalid_output, failed}
use gateway_glc_v.Chat.Failover.{
  Request, Chat, Outcome, others, final, with_reply, after_failure, not_built, after_answer, asking,
  round, picked, with_pick, rounds,
}

pub keep-length : (p : Provider → Bool) (xs : List Provider) → length (keep p xs) ≤ length xs
keep-length p [] = omega arith
keep-length p (x ∷ xs) = ground (arith, keep-length p xs)

others-after :
    (name : Provider) (before rest : List Provider)
    → length (others name (before ++ (name ∷ rest))) < length (before ++ (name ∷ rest))
others-after name [] rest =
    ground (arith, same_provider_iff name name, keep-length (λ c. not (same_provider c name)) rest)
others-after name (x ∷ before) rest = ground (arith, others-after name before rest)

module _ (r : Router) (u : Upstream) (clock : ℕ → ℕ) (q : Request) where
  pub chosen-shorter :
      (w : Rates) (candidates : List Provider) (p : Picked) (name : Provider)
      → p.name ≡ some name
      → FirstFit r clock q.est q.required_caps w candidates p
      → length (others name candidates) < length candidates
  chosen-shorter w candidates p name e (h, _) =
      let (_, _, (rest, eq)) =
        subst
          (λ o.
            Chosen r clock q.est q.required_caps candidates (left_by clock w p.attempts) p.rates
              p.attempts o)
          e h in
      rw eq (others-after name (map (λ a. a.provider) p.attempts) rest)

  after_failure-same :
      (name : Provider) (c : Chat) (x : Failure) (f g : Chat → Chat × Outcome)
      → ((y : Chat) → f y ≡ g y)
      → after_failure r u clock q name c x f ≡ after_failure r u clock q name c x g
  after_failure-same name c x f g e = elim (Bool-cases (final r u clock q x)) [
    | inl b ↦ rw b refl
    | inr b ↦ rw b (e _)
  ]

  after_answer-same :
      (name : Provider) (c : Chat) (a : Answer) (f g : Chat → Chat × Outcome)
      → ((x : Chat) → f x ≡ g x)
      → after_answer r u clock q name c a f ≡ after_answer r u clock q name c a g
  after_answer-same name c (replied reply) f g e = elim (Option-cases (u.response reply)) [
    | inl built ↦ rw (built, after_answer) refl
    | inr (why, raises) ↦
        rw (raises, after_answer)
          (after_failure-same name (with_reply r u clock q c name reply) (not_built r u clock q why)
            f g e)
  ]
  after_answer-same name c invalid_output f g e = refl
  after_answer-same name c (failed x) f g e = after_failure-same name c x f g e

  round-same :
      (c : Chat) (picked_name : Option Provider) (f g : Provider → Chat → Chat × Outcome)
      → ((name : Provider) (x : Chat) → picked_name ≡ some name → f name x ≡ g name x)
      → round r u clock q c picked_name f ≡ round r u clock q c picked_name g
  unfolding round
  round-same c none f g e = refl
  round-same c (some name) f g e =
      let (c', answer) = asking r u clock q c name in
      after_answer-same name c' answer (f name) (g name) (λ x. e name x refl)

  -- The loop's number of rounds, one more than the candidates, is enough: with any greater number of
  -- rounds it does the same.
  pub rounds_enough :
      (n m : ℕ) (candidates : List Provider) (c : Chat)
      → length candidates < n
      → length candidates < m
      → rounds r u clock q n candidates c ≡ rounds r u clock q m candidates c
  unfolding rounds
  rounds_enough zero m candidates c hn hm = absurd (omega arith)
  rounds_enough (suc n) zero candidates c hn hm = absurd (omega arith)
  rounds_enough (suc n) (suc m) candidates c hn hm =
      let p = picked r u clock q c candidates in
      round-same (with_pick r u clock q c p) p.name _ _ (λ name x e.
        let shorter =
          chosen-shorter c.rates candidates p name e
            (pick-FirstFit r clock c.rates q.est candidates q.required_caps) in
        rounds_enough n m (others name candidates) x (omega arith) (omega arith))
