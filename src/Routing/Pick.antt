-- ===== src/Routing/Pick.antt =====
-- What `Router.pick` of glc/routing.py picks, and the reasons that it gives.
use mathlib.Core.Path.{subst}
use gateway_glc_v.Common.{
  ℕ, ◌+◌, ◌*◌, ◌≤◌, ◌<◌, ◌≡◌, refl, Bool, true, false, List, [], ◌∷◌, ◌++◌, map, Option, none, some,
  ltb, length, ap, All, arith, Option-cases, Bool-cases, inl, inr, sec,
}
use gateway_glc_v.Common.Dict.{put}
use gateway_glc_v.Routing.Providers.{Provider, provider_eq, Capability, Limits, limits}
use gateway_glc_v.Routing.RateState.{RateState, refusal, can_use, gc, over_day, sum_tokens}
use gateway_glc_v.Routing.Ring.{
  Router, Rates, Picked, Attempt, Reason, skipped_no, prompt_too_long, skipped, first_missing,
  add_attempt, decide_use, state_of, readings, try_use, consider, pick,
}

-- The state of a provider after the sweep of a test, when its limits allow a call of this size.
pub record MayUse (s : RateState) (l : Limits) (est now : ℕ) : Type 0 where
  pub no_backoff : s.unavailable_until ≤ now
  pub cooled_down : s.last_call + l.cooldown * sec ≤ now
  pub calls_left : length s.calls_minute < l.rpm
  pub calls_left_today : s.calls_today < l.rpd
  pub tokens_left : sum_tokens s.tokens_minute + est ≤ l.tpm
  pub tokens_left_today : over_day l.tokens_per_day (s.tokens_today + est) ≡ false

pub refusal-MayUse :
    (s : RateState) (l : Limits) (est now : ℕ) → refusal s l est now ≡ none → MayUse s l est now
unfolding refusal
refusal-MayUse s l est now h = record {
  no_backoff = ground arith;
  cooled_down = ground arith;
  calls_left = ground arith;
  calls_left_today = ground arith;
  tokens_left = ground arith;
  tokens_left_today = ground arith;
}

pub first_missing-All :
    (caps : Capability → Bool) (required : List Capability)
    → first_missing caps required ≡ none
    → All (λ c. caps c ≡ true) required
unfolding first_missing
first_missing-All caps [] h = tt
first_missing-All caps (c ∷ cs) h = elim (Bool-cases (caps c)) [
  | inl p ↦ (p, first_missing-All caps cs (ground arith))
  | inr p ↦ absurd (ground arith)
]

abbrev pub IsAmong : List Capability → Capability → Type 0
IsAmong caps c =
    (before : List Capability) × (rest : List Capability) × (caps ≡ before ++ (c ∷ rest))

first_missing_lem :
    (caps : Capability → Bool) (required : List Capability) (c : Capability)
    → first_missing caps required ≡ some c
    → IsAmong required c × (caps c ≡ false)
unfolding first_missing
first_missing_lem caps [] c h = cc
first_missing_lem caps (d ∷ ds) c h = elim (Bool-cases (caps d)) [
  | inl p ↦
      let ((before, rest, same), lacks) = first_missing_lem caps ds c (ground arith) in
      ((d ∷ before, rest, ap (λ l. d ∷ l) same), lacks)
  | inr p ↦ let same : d ≡ c = ground arith in (([], ds, ap (λ x. x ∷ ds) same), ground arith)
]

-- A provider's own state, swept as a test sweeps it, where the clock was read `w.reads` times before.
abbrev pub swept : (ℕ → ℕ) → Rates → Provider → RateState
swept clock w name =
    let t = readings clock (w.reads + 1) in gc (state_of clock w name) t.gc_now t.day_now

-- What a test of a provider leaves: its swept state, and four readings.
abbrev pub tested : (ℕ → ℕ) → Rates → Provider → Rates
tested clock w name = record { state = put w.state name (swept clock w name); reads = w.reads + 4 }

-- The reason that is given for a provider that was passed over, by what stood when it was its turn.
abbrev pub Justified : Router → (ℕ → ℕ) → ℕ → List Capability → Rates → Attempt → Type 0
Justified r clock est caps w a = elim a.reason [
  | skipped_no c ↦ IsAmong caps c × (r.capable a.provider c ≡ false)
  | prompt_too_long n ctx ↦ (n ≡ est) × (ctx ≡ (limits a.provider).max_ctx) × (ctx < est)
  | skipped why ↦
      refusal (swept clock w a.provider) (limits a.provider) est (clock (w.reads + 3)) ≡ some why
]

abbrev pub left_by_one : (ℕ → ℕ) → Rates → Attempt → Rates
left_by_one clock w a = elim a.reason [
  | skipped_no c ↦ w
  | prompt_too_long n ctx ↦ w
  | skipped why ↦ tested clock w a.provider
]

-- What stands when those of a list were passed over, one after another.
abbrev pub left_by : (ℕ → ℕ) → Rates → List Attempt → Rates
left_by clock w [] = w
left_by clock w (a ∷ attempts) = left_by clock (left_by_one clock w a) attempts

abbrev pub AllJustified : Router → (ℕ → ℕ) → ℕ → List Capability → Rates → List Attempt → Type 0
AllJustified r clock est caps w [] = Unit
AllJustified r clock est caps w (a ∷ attempts) =
    Justified r clock est caps w a × AllJustified r clock est caps (left_by_one clock w a) attempts

-- A provider that is picked.
pub record IsFit (r : Router) (est : ℕ) (caps : List Capability) (name : Provider) : Type 0 where
  pub all_caps : All (λ c. r.capable name c ≡ true) caps
  pub fits : est ≤ (limits name).max_ctx

-- Its own state allows the call at the time that is read, and just this test was made.
pub record IsFree (clock : ℕ → ℕ) (est : ℕ) (before after : Rates) (name : Provider) : Type 0 where
  pub may_use : MayUse (swept clock before name) (limits name) est (clock (before.reads + 3))
  pub left : after ≡ tested clock before name

-- The attempts are the candidates that come before the one that is picked, or all of them.
abbrev pub Chosen :
    Router
    → (ℕ → ℕ)
    → ℕ
    → List Capability
    → List Provider
    → Rates
    → Rates
    → List Attempt
    → Option Provider
    → Type 0
Chosen r clock est caps names before after attempts none =
    (names ≡ map (λ a. a.provider) attempts) × (after ≡ before)
Chosen r clock est caps names before after attempts (some name) =
    IsFit r est caps name
    × IsFree clock est before after name
    × ((rest : List Provider) × (names ≡ map (λ a. a.provider) attempts ++ (name ∷ rest)))

-- What `pick` gives for candidates, from the states that it finds.
abbrev pub FirstFit :
    Router → (ℕ → ℕ) → ℕ → List Capability → Rates → List Provider → Picked → Type 0
FirstFit r clock est caps w names p =
    Chosen r clock est caps names (left_by clock w p.attempts) p.rates p.attempts p.name
    × AllJustified r clock est caps w p.attempts

module _ (r : Router) (clock : ℕ → ℕ) (est : ℕ) (caps : List Capability) (name : Provider)
    (names : List Provider) where
  Chosen-cons :
      (before after : Rates) (a : Attempt) (attempts : List Attempt) (picked : Option Provider)
      → a.provider ≡ name
      → Chosen r clock est caps names before after attempts picked
      → Chosen r clock est caps (name ∷ names) before after (a ∷ attempts) picked
  Chosen-cons before after a attempts none e (all, same) = (cc, same)
  Chosen-cons before after a attempts (some n) e (fit, free, (rest, p)) = (fit, free, (rest, cc))

  skip-FirstFit :
      (why : Reason) (w : Rates) (p : Picked)
      → Justified r clock est caps w (record { provider = name; reason = why })
      → FirstFit r clock est caps
          (left_by_one clock w (record { provider = name; reason = why }))
          names
          p
      → FirstFit r clock est caps w (name ∷ names) (add_attempt name why p)
  skip-FirstFit why w p j h =
      let a : Attempt = record { provider = name; reason = why } in
      (
        Chosen-cons (left_by clock (left_by_one clock w a) p.attempts) p.rates a p.attempts p.name
            refl h.0,
        (j, h.1),
      )

  use-FirstFit :
      (w : Rates) (next : Rates → Picked)
      → ((w' : Rates) → FirstFit r clock est caps w' names (next w'))
      → All (λ c. r.capable name c ≡ true) caps
      → est ≤ (limits name).max_ctx
      → FirstFit r clock est caps w (name ∷ names) (decide_use name (try_use clock w name est) next)
  unfolding try_use can_use
  use-FirstFit w next k hc hx =
      let s = swept clock w name in
      let three : w.reads + 1 + 2 ≡ w.reads + 3 = omega arith in
      elim (Option-cases (refusal s (limits name) est (clock (w.reads + 1 + 2)))) [
        | inl p ↦ rw p (
          (
            record { all_caps = hc; fits = hx },
            record {
              may_use =
                  subst (λ n. MayUse s (limits name) est (clock n)) three
                    (refusal-MayUse s (limits name) est (clock (w.reads + 1 + 2)) p);
              left = refl;
            },
            (names, refl),
          ),
          tt,
        )
        | inr (why, p) ↦ rw p (
            skip-FirstFit (skipped why) w (next (tested clock w name))
              (subst (λ n. refusal s (limits name) est (clock n) ≡ some why) three p)
              (k (tested clock w name)))
      ]

  consider-FirstFit :
      (w : Rates) (next : Rates → Picked)
      → ((w' : Rates) → FirstFit r clock est caps w' names (next w'))
      → FirstFit r clock est caps w
          (name ∷ names)
          (consider clock w name est (first_missing (r.capable name) caps) next)
  unfolding consider
  consider-FirstFit w next k = elim (Option-cases (first_missing (r.capable name) caps)) [
    | inl p ↦
        let hc = first_missing-All (r.capable name) caps p in
        elim (Bool-cases (ltb (limits name).max_ctx est)) [
          | inl long ↦
              rw (p, long)
                (skip-FirstFit (prompt_too_long est (limits name).max_ctx) w (next w)
                  (refl, refl, ground arith) (k w))
          | inr short ↦ rw (p, short) (use-FirstFit w next k hc (ground arith))
        ]
    | inr (c, p) ↦ rw p (
        skip-FirstFit (skipped_no c) w (next w) (first_missing_lem (r.capable name) caps c p) (k w))
  ]

-- `pick` gives the first candidate that has every required capability, whose context is long enough
-- and whose own state, swept, allows the call at the time that is read for it. For each candidate
-- before it, and for each one if it gives none, it gives a reason that is true of that candidate: a
-- required capability that it lacks, its context limit below the size of the call, or the refusal by
-- its own state at the time that was read for it; and it leaves the states that these tests leave.
pub pick-FirstFit :
    (r : Router) (clock : ℕ → ℕ) (w : Rates) (est : ℕ) (names : List Provider)
    (caps : List Capability)
    → FirstFit r clock est caps w names (pick r clock w est names caps)
unfolding pick
pick-FirstFit r clock w est [] caps = ((refl, refl), tt)
pick-FirstFit r clock w est (name ∷ names) caps =
    consider-FirstFit r clock est caps name names w _
      (λ w'. pick-FirstFit r clock w' est names caps)
