-- ===== src/Routing/Tests.antt =====
-- Runs of the router on concrete inputs.
use gateway_glc_v.Common.{
  ℕ, ◌+◌, ◌≤◌, ◌≡◌, refl, Bool, true, false, List, [], ◌∷◌, none, some, length,
}
use gateway_glc_v.Common.Text.{codes}
use gateway_glc_v.Routing.Providers.{
  Provider, Capability, groq, gemini, cerebras, limits, resolve, vision,
}
use gateway_glc_v.Routing.RateState.{
  Readings, new_state, can_use, gc, drop_calls, drop_tokens, refusal, record_call, rate_limited,
}
use gateway_glc_v.Routing.Ring.{
  Router, new_router, candidates, pick, consider, first_missing, try_use, state_of, Rates,
}
use gateway_glc_v.Routing.Pick.{FirstFit, pick-FirstFit}
use gateway_glc_v.Routing.Quota.{Op, call, test, used, unavailable, run, run_within_quota}

abbrev caps : Provider → Capability → Bool
caps gemini vision = true
caps p vision = false
caps p c = true

abbrev ring : Router
ring = new_router (groq ∷ gemini ∷ []) caps (groq ∷ cerebras ∷ gemini ∷ [])

abbrev clock : ℕ → ℕ
clock n = 86400000000 + n

abbrev nothing_yet : Rates
nothing_yet = record { state = []; reads = 0 }

order_is_known : candidates ring none ≡ groq ∷ gemini ∷ []
unfolding candidates new_router
order_is_known = refl

override_resolves : candidates ring (some (codes "GEM")) ≡ gemini ∷ []
unfolding candidates new_router resolve
override_resolves = refl

picture_goes_to_gemini :
    (pick ring clock nothing_yet 500 (groq ∷ gemini ∷ []) (vision ∷ [])).name ≡ some gemini
unfolding new_router pick consider first_missing try_use state_of can_use gc drop_calls drop_tokens
    refusal new_state limits
picture_goes_to_gemini = refl

abbrev read_at : ℕ → Readings
read_at t = record { gc_now = t; day_now = t; now = t }

-- two calls within the cooldown of groq: the second is refused
two_calls :
    (run
      (limits groq)
      (new_state 0)
      (call 10 (read_at 5000000) 5000000 ∷ call 10 (read_at 6000000) 6000000 ∷ [])).calls_today
    ≡ 1
unfolding run can_use gc drop_calls drop_tokens refusal new_state record_call limits
two_calls = refl

pick-FirstFit_example :
    FirstFit ring clock 500
      (vision ∷ [])
      nothing_yet
      (groq ∷ gemini ∷ [])
      (pick ring clock nothing_yet 500 (groq ∷ gemini ∷ []) (vision ∷ []))
pick-FirstFit_example = pick-FirstFit ring clock nothing_yet 500 (groq ∷ gemini ∷ []) (vision ∷ [])

abbrev history : List Op
history =
    call 10 (read_at 5000000) 5000000
    ∷ unavailable 30 rate_limited 5200000
    ∷ test 10 (read_at 36000000)
    ∷ call 10 (read_at 37000000) 37000000
    ∷ used 19 37100000
    ∷ []

run_within_quota_example :
    (length (run (limits groq) (new_state 0) history).calls_minute ≤ (limits groq).rpm)
    × ((run (limits groq) (new_state 0) history).calls_today ≤ (limits groq).rpd)
run_within_quota_example = run_within_quota (limits groq) 0 history
