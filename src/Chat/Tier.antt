-- ===== src/Chat/Tier.antt =====
-- The size of a prompt, and the tier that a router model gives it (glc/routes/chat.py).
-- `upper` is that of an ASCII text. A router's reply is an argument, by the number of the call.
pub mod Exact
use gateway_glc_v.Common.{
  ℕ, zero, suc, ◌+◌, ◌-◌, ◌*◌, ◌/◌, ◌%◌, ◌^◌, Bool, true, false, not, ◌&&◌, ◌||◌, List, [], ◌∷◌,
  ◌++◌, map, Option, none, some, if◌then◌else◌, keep, ltb, leb, eqb, contains, Result, ok, err,
}
use gateway_glc_v.Common.Dict.{put, get, Dict}
use gateway_glc_v.Common.Text.{Text, codes, has_part, is_space, text_eq}
use gateway_glc_v.Routing.Providers.{
  Provider, provider_eq, ollama, cerebras, groq, nvidia, gemini, openrouter, github,
}
use gateway_glc_v.Routing.RateState.{record_call, add_tokens, Skip}
use gateway_glc_v.Routing.Ring.{Router, Rates, state_of, try_use, candidates}

-- `len(text.split())`, with whether the character before is part of a word
words : Bool → Text → ℕ
words inside [] = 0
words inside (c ∷ s) =
    let out = words false s in
    let on = words true s in if is_space c then out else if inside then on else suc on

-- `1.4` is the double `6305039478318694 / 2 ^ 52`
abbrev scale : ℕ
scale = 6305039478318694

-- the bits of an exact product that a double does not keep
unfoldable pub excess : ℕ → ℕ → ℕ
excess zero x = 0
excess (suc fuel) x =
    let more = excess fuel (x / 2) in if ltb x 9007199254740992 then 0 else suc more

abbrev half_even : ℕ → ℕ → ℕ
half_even x unit =
    let low = x / unit in
    let rem = x % unit in
    if ltb unit (2 * rem) || (eqb unit (2 * rem) && eqb (low % 2) 1) then low + 1 else low

-- `int(n * 1.4)`, rounded as a product of doubles is, for `n` below 2 ^ 53
unfoldable pub times_1_4 : ℕ → ℕ
unfolding excess
times_1_4 n =
    let unit = 2 ^ excess 64 (n * scale) in half_even (n * scale) unit * unit / 4503599627370496

-- `_estimate_tokens`
unfoldable pub estimate_tokens : Text → ℕ
unfolding words times_1_4
estimate_tokens text = times_1_4 (words false text)

pub data Tier : Type 0 where
  tiny large huge : Tier

unfoldable pub tier_from_count : ℕ → Tier
tier_from_count tokens = if ltb 8000 tokens then huge else if leb 1000 tokens then large else tiny

abbrev upper_code : ℕ → ℕ
upper_code c = if leb b'a' c && leb c b'z' then c - 32 else c

-- `_parse_tier`
unfoldable pub parse_tier : Text → Option Tier
parse_tier text =
    let up = map upper_code text in
    if has_part up (codes "HUGE")
    then some huge
    else if has_part up (codes "LARGE")
    then some large
    else if has_part up (codes "TINY")
    then some tiny
    else none

-- What a router model answers: a text and the tokens it took; `none` is any exception.
pub record RouterReply : Type 0 where
  pub text : Text
  pub tokens : ℕ

pub record RouterDecision : Type 0 where
  pub tier : Tier
  pub estimated_tokens : ℕ
  pub fallback_used : Bool
  pub router_provider : Option Provider

pub record Routing : Type 0 where
  pub rates : Rates
  pub calls : ℕ
  pub decision : RouterDecision

module _ (clock : ℕ → ℕ) (ask : ℕ → Provider → Option RouterReply) (estimated : ℕ) where
  abbrev decided : Tier → Bool → Option Provider → RouterDecision
  decided tier fallback p = record {
    tier = tier;
    estimated_tokens = estimated;
    fallback_used = fallback;
    router_provider = p;
  }

  -- a short prompt is not huge, whatever the router says
  abbrev pub capped : Tier → Tier
  capped huge = if leb estimated 8000 then large else huge
  capped t = t

  abbrev with_call : Rates → Provider → Rates
  with_call w name = record {
    state = put w.state name (record_call (state_of clock w name) 0 (clock w.reads));
    reads = w.reads + 1;
  }

  abbrev with_tokens : Rates → Provider → ℕ → Rates
  with_tokens w name n = record {
    state = put w.state name (add_tokens (state_of clock w name) n (clock w.reads));
    reads = w.reads + 1;
  }

  abbrev pub after_tier :
      Provider → Rates → ℕ → Option Tier → (Option Provider → Rates → ℕ → Routing) → Routing
  after_tier name w calls none next = next (some name) w calls
  after_tier name w calls (some t) next = record {
    rates = w;
    calls = calls;
    decision = decided (capped t) false (some name);
  }

  abbrev pub after_reply :
      Provider → Rates → ℕ → Option RouterReply → (Option Provider → Rates → ℕ → Routing) → Routing
  after_reply name w calls none next = next (some name) w calls
  after_reply name w calls (some r) next =
      after_tier name (with_tokens w name r.tokens) calls (parse_tier r.text) next

  abbrev pub asked_or_not :
      Provider
      → Option Provider
      → Rates × Option Skip
      → ℕ
      → (Option Provider → Rates → ℕ → Routing)
      → Routing
  asked_or_not name last (w, some why) calls next = next last w calls
  asked_or_not name last (w, none) calls next =
      after_reply name (with_call w name) (calls + 1) (ask calls name) next

  -- the loop over the pool; `last` is the router that was asked last
  unfoldable pub classify : List Provider → Option Provider → Rates → ℕ → Routing
  classify [] last w calls = record {
    rates = w;
    calls = calls;
    decision = decided (tier_from_count estimated) true last;
  }
  classify (name ∷ names) last w calls =
      asked_or_not name last (try_use clock w name 400) calls (λ l w' n. classify names l w' n)

  -- `_classify_tier`
  unfoldable pub classify_tier : List Provider → Rates → ℕ → Routing
  classify_tier pool w calls =
      let looped = classify pool none w calls in
      if ltb 8000 estimated
      then record { rates = w; calls = calls; decision = decided huge true none }
      else looped

-- TIER_TO_ORDER
abbrev tier_order : Tier → List Provider
tier_order tiny = github ∷ openrouter ∷ groq ∷ nvidia ∷ cerebras ∷ gemini ∷ ollama ∷ []
tier_order large = gemini ∷ groq ∷ nvidia ∷ cerebras ∷ github ∷ openrouter ∷ ollama ∷ []
tier_order huge = []

-- What `chat` does before its loop: it gives up, or it goes on with these candidates, and with or
-- without an override.
pub data Plan : Type 0 where
  too_large : Plan
  unknown_provider : Plan
  go : List Provider → Bool → Plan

-- The provider of the request, else the one that its agent is pinned to, if that one is known;
-- an empty name counts as none.
abbrev given : Option Text → Option Text
given none = none
given (some []) = none
given (some (c ∷ t)) = some (c ∷ t)

abbrev by_override : Router → Text → Plan
by_override r name = elim (candidates r (some name)) [
  | [] ↦ unknown_provider
  | p ∷ ps ↦ go (p ∷ ps) true
]

abbrev by_tier : Router → Tier → Plan
by_tier r huge = too_large
by_tier r t = go (keep (λ p. contains r.providers p) (tier_order t)) false

abbrev pinned : Option Text → (Text → Option Text) → Option Text → Option Text
pinned (some name) pin agent = some name
pinned none pin none = none
pinned none pin (some a) = given (pin a)

-- `auto` is the tier of the classifier, when the request asks for it. A pin names a known provider.
abbrev without_override : Router → Option Tier → Plan
without_override r none = go r.order false
without_override r (some t) = by_tier r t

unfoldable pub plan : Router → Option Text → (Text → Option Text) → Option Text → Option Tier → Plan
plan r provider pin agent auto = elim (pinned (given provider) pin (given agent)) [
  | none ↦ without_override r auto
  | some name ↦ by_override r name
]
