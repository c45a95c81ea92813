-- ===== src/RateLimits/Tests.antt =====
-- Runs of the limiter on concrete inputs.
use gateway_glc_v.Common.{
  ℕ, ◌-◌, ◌<◌, ◌≤◌, ◌≡◌, ◌↔◌, refl, List, [], ◌∷◌, none, some, minute, arith,
}
use gateway_glc_v.RateLimits.{
  ChannelsYaml, messages, check, window, limits_for, gc, get_rate_limiter, exceeded,
}
use gateway_glc_v.RateLimits.Sweep.{since}
use gateway_glc_v.RateLimits.History.{Check, serve, times, start, cap_for, check_exact}
use gateway_glc_v.RateLimits.Pace.{minute_count, admitted_per_minute}

abbrev two_a_minute : ChannelsYaml
two_a_minute = record {
  defaults_rate_limits = ("messages_per_minute", 5) ∷ [];
  channels = ("sms", ("messages_per_minute", 2) ∷ []) ∷ [];
}

abbrev at : ℕ → Check
at t = record { channel = "sms"; user = "ann"; kind = messages; now = t }

abbrev burst : List Check
burst = at 5000000 ∷ at 6000000 ∷ at 7000000 ∷ at 65000001 ∷ []

-- the third message is refused, and the fourth finds the first one gone
burst_admits :
    times "sms" "ann" messages (start two_a_minute burst).1 ≡ 65000001 ∷ 6000000 ∷ 5000000 ∷ []
unfolding serve check window limits_for gc get_rate_limiter
burst_admits = refl

third_refused :
    (check (start two_a_minute (at 5000000 ∷ at 6000000 ∷ [])).0 "sms" "ann" messages 7000000).1
    ≡ some (exceeded messages 2 "sms" "ann")
unfolding serve check window limits_for gc get_rate_limiter
third_refused = refl

check_exact_example :
    ((check (start two_a_minute burst).0 "sms" "ann" messages 66000001).1 ≡ none) ↔ (
      since (66000001 - minute) (times "sms" "ann" messages (start two_a_minute burst).1)
      < cap_for two_a_minute "sms" messages)
check_exact_example = check_exact two_a_minute burst (at 66000001) (omega arith) (omega arith)

admitted_per_minute_example :
    minute_count 5000000 (times "sms" "ann" messages (start two_a_minute burst).1)
    ≤ cap_for two_a_minute "sms" messages
admitted_per_minute_example =
    admitted_per_minute two_a_minute burst "sms" "ann" messages 5000000 (omega arith)
