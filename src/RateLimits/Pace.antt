-- ===== src/RateLimits/Pace.antt =====
-- How many checks of one window are admitted in a minute.
use gateway_glc_v.Common.{
  ℕ, ◌+◌, ◌-◌, ◌≤◌, ◌<◌, ◌≡◌, Option-cases, ap, String, List, [], ◌∷◌, Bool, true, ◌&&◌, none,
  arith, leb, tally, minute, pair_eq, pair_beq_iff, Bool-cases, inl, inr,
}
use gateway_glc_v.RateLimits.{
  Kind, RateLimiter, ChannelsYaml, check, cap_of, limits_for, get_rate_limiter,
}
use gateway_glc_v.RateLimits.Sweep.{since}
use gateway_glc_v.RateLimits.History.{
  Check, same_window, times, keep_admitted, serve, InOrder, Tracks, after, limits-check,
  check-decides, kind_beq_iff, times-same, Tracks-start, length-swept, Tracks-check, start, cap_for,
}

-- Each admission found fewer than `cap` admissions in the minute before it.
abbrev Paced : ℕ → List ℕ → Type 0
Paced cap [] = Unit
Paced cap (t ∷ ts) = (since (t - minute) (t ∷ ts) ≤ cap) × Paced cap ts

abbrev in_minute : ℕ → ℕ → Bool
in_minute from t = leb from t && leb t (from + minute)

-- The number of times in the closed minute that begins at `from`.
abbrev pub minute_count : ℕ → List ℕ → ℕ
minute_count from = tally (in_minute from)

minute_count-le :
    (from t : ℕ) (ts : List ℕ) → t ≤ from + minute → minute_count from ts ≤ since (t - minute) ts
minute_count-le from t [] h = omega arith
minute_count-le from t (x ∷ ts) h = ground (arith, minute_count-le from t ts)

minute_count-Paced : (cap from : ℕ) (ts : List ℕ) → Paced cap ts → minute_count from ts ≤ cap
minute_count-Paced cap from [] p = omega arith
minute_count-Paced cap from (t ∷ ts) p =
    ground (arith, minute_count-Paced cap from ts, minute_count-le from t ts)

cap-same :
    (s : RateLimiter) (c u : String) (k : Kind) (e : Check)
    → same_window c u k e ≡ true
    → cap_of e.kind (limits_for s e.channel) ≡ cap_of k (limits_for s c)
cap-same s c u k e h = cc (
  ap (λ (i : String × String). cap_of k (limits_for s i.0))
      ((pair_beq_iff (e.channel, e.user) (c, u)).0 (ground arith)),
  ap (λ (j : Kind). cap_of j (limits_for s e.channel)) ((kind_beq_iff e.kind k).0 (ground arith)),
)

since-now :
    (cap now : ℕ) (ts : List ℕ)
    → since (now - minute) ts < cap
    → since (now - minute) (now ∷ ts) ≤ cap
since-now cap now ts h = ground arith

room :
    (s : RateLimiter) (log : List Check) (clock : ℕ) (e : Check)
    → Tracks s log clock
    → clock ≤ e.now
    → (check s e.channel e.user e.kind e.now).1 ≡ none
    → since (e.now - minute) (times e.channel e.user e.kind log)
      < cap_of e.kind (limits_for s e.channel)
room s log clock e t later h = rw (← length-swept s log clock e t later) ((check-decides s e).0 h)

Paced-check :
    (s : RateLimiter) (log : List Check) (clock : ℕ) (e : Check) (t : Tracks s log clock)
    → clock ≤ e.now
    → (c u : String) (k : Kind) → Paced (cap_of k (limits_for s c)) (times c u k log)
    → Paced
        (cap_of k (limits_for s c))
        (times c u k (keep_admitted (check s e.channel e.user e.kind e.now).1 e log))
Paced-check s log clock e t later c u k p =
    elim (Option-cases (check s e.channel e.user e.kind e.now).1) [
      | inl admitted ↦ rw admitted (elim (Bool-cases (same_window c u k e)) [
        | inl same ↦ rw same (
          since-now (cap_of k (limits_for s c)) e.now _ (
              rw (← cap-same s c u k e same, times-same c u k e log same)
                (room s log clock e t later admitted)),
          p,
        )
        | inr other ↦ rw other p
      ])
      | inr (x, refused) ↦ rw refused p
    ]

serve-Paced :
    (s : RateLimiter) (log es : List Check) (clock : ℕ) (c u : String) (k : Kind)
    → Tracks s log clock
    → InOrder clock es
    → Paced (cap_of k (limits_for s c)) (times c u k log)
    → Paced (cap_of k (limits_for s c)) (times c u k (serve s log es).1)
unfolding serve
serve-Paced s log [] clock c u k t o p = p
serve-Paced s log (e ∷ es) clock c u k t o p = rw (← limits-check s e c) (
    serve-Paced (after s e) _ es e.now c u k (Tracks-check s log clock e t o.0) o.1
      (rw (limits-check s e c) (Paced-check s log clock e t o.0 c u k p)))

-- While the clock does not run backwards, no closed minute holds more admitted checks of one
-- channel, user and kind than the cap of the channel and the kind.
pub admitted_per_minute :
    (yaml : ChannelsYaml) (es : List Check) (c u : String) (k : Kind) (from : ℕ)
    → InOrder 0 es
    → minute_count from (times c u k (start yaml es).1) ≤ cap_for yaml c k
admitted_per_minute yaml es c u k from o =
    minute_count-Paced (cap_for yaml c k) from _
      (serve-Paced (get_rate_limiter yaml) [] es 0 c u k (Tracks-start yaml) o tt)
