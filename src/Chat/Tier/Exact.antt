-- ===== src/Chat/Tier/Exact.antt =====
-- Which tier a prompt gets.
use gateway_glc_v.Common.{
  ℕ, ◌+◌, ◌≤◌, ◌<◌, ◌≡◌, ◌≢◌, ◌↔◌, refl, List, [], ◌∷◌, Option, none, some, ltb, arith, Bool-cases,
  inl, inr,
}
use gateway_glc_v.Routing.Providers.{Provider}
use gateway_glc_v.Routing.RateState.{Skip}
use gateway_glc_v.Routing.Ring.{Rates, try_use}
use gateway_glc_v.Chat.Tier.{
  Tier, tiny, large, huge, RouterReply, Routing, tier_from_count, parse_tier, capped, after_tier,
  after_reply, asked_or_not, classify, classify_tier,
}

module _ (clock : ℕ → ℕ) (ask : ℕ → Provider → Option RouterReply) (estimated : ℕ)
    (short : estimated ≤ 8000) where
  -- What is kept by the rest of the loop.
  abbrev Small : Routing → Type 0
  Small x = x.decision.tier ≢ huge

  capped-Small : (t : Tier) → capped clock ask estimated t ≢ huge
  capped-Small tiny h = cc
  capped-Small large h = cc
  capped-Small huge h = ground arith

  after_tier-Small :
      (name : Provider) (w : Rates) (calls : ℕ) (t : Option Tier)
      (next : Option Provider → Rates → ℕ → Routing)
      → ((l : Option Provider) (w' : Rates) (n : ℕ) → Small (next l w' n))
      → Small (after_tier clock ask estimated name w calls t next)
  after_tier-Small name w calls none next h = h (some name) w calls
  after_tier-Small name w calls (some t) next h = capped-Small t

  reply-Small :
      (name : Provider) (w : Rates) (calls : ℕ) (r : Option RouterReply)
      (next : Option Provider → Rates → ℕ → Routing)
      → ((l : Option Provider) (w' : Rates) (n : ℕ) → Small (next l w' n))
      → Small (after_reply clock ask estimated name w calls r next)
  reply-Small name w calls none next h = h (some name) w calls
  reply-Small name w calls (some r) next h =
      after_tier-Small name _ calls (parse_tier r.text) next h

  asked-Small :
      (name : Provider) (last : Option Provider) (x : Rates × Option Skip) (calls : ℕ)
      (next : Option Provider → Rates → ℕ → Routing)
      → ((l : Option Provider) (w' : Rates) (n : ℕ) → Small (next l w' n))
      → Small (asked_or_not clock ask estimated name last x calls next)
  asked-Small name last (w, some why) calls next h = h last w calls
  asked-Small name last (w, none) calls next h =
      reply-Small name _ (calls + 1) (ask calls name) next h

  classify-Small :
      (names : List Provider) (last : Option Provider) (w : Rates) (calls : ℕ)
      → Small (classify clock ask estimated names last w calls)
  unfolding classify tier_from_count
  classify-Small [] last w calls = λ h. ground arith
  classify-Small (name ∷ names) last w calls =
      asked-Small name last (try_use clock w name 400) calls _
        (λ l w' n. classify-Small names l w' n)

-- Whatever the routers answer, and whether any of them can be asked, a prompt is huge just if its
-- estimate is over 8000 tokens.
pub huge_exact :
    (clock : ℕ → ℕ) (ask : ℕ → Provider → Option RouterReply) (estimated : ℕ) (pool : List Provider)
    (w : Rates) (calls : ℕ)
    → ((classify_tier clock ask estimated pool w calls).decision.tier ≡ huge) ↔ (8000 < estimated)
unfolding classify_tier
huge_exact clock ask estimated pool w calls = elim (Bool-cases (ltb 8000 estimated)) [
  | inl b ↦ rw b (λ h. ground arith, λ h. refl)
  | inr b ↦ rw b (
    λ h. absurd (classify-Small clock ask estimated (ground arith) pool none w calls h),
    λ h. absurd (ground arith),
  )
]
