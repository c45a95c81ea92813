-- ===== src/Chat/Backoff.antt =====
-- `_backoff_for` of glc/routes/chat.py: how long a provider rests after a failure.
use gateway_glc_v.Common.{
  ℕ, ◌≡◌, Bool, true, false, ◌&&◌, ◌||◌, not, Option, none, some, if◌then◌else◌, leb, ltb, eqb,
  arith,
}
use gateway_glc_v.Common.Text.{Text, codes, lower, has_part}
use gateway_glc_v.Routing.RateState.{
  Unavailable, no_reason, queue_full, rpm_burned, rpd_burned, rate_limited, timeout, auth_error,
  upstream,
}

abbrev pub is_status : Option ℕ → ℕ → Bool
is_status none n = false
is_status (some s) n = eqb s n

abbrev pub server_error : Option ℕ → Bool
server_error none = false
server_error (some s) = leb 500 s && ltb s 600

abbrev status_of : Option ℕ → ℕ
status_of none = 0
status_of (some s) = s

abbrev pub says : Text → Text → Bool
says msg part = has_part (lower msg) part

abbrev for_429 : Text → ℕ × Unavailable
for_429 msg =
    if says msg (codes "queue")
    then (15, queue_full)
    else if says msg (codes "quota") || says msg (codes "rpm") || says msg (codes "per minute")
    then (60, rpm_burned)
    else if says msg (codes "rpd") || says msg (codes "per day") || says msg (codes "daily")
    then (3600, rpd_burned)
    else (30, rate_limited)

-- the seconds, and the reason that is kept
unfoldable pub backoff_for : Option ℕ → Text → Bool → ℕ × Unavailable
backoff_for status msg has_model_override =
    if is_status status 429
    then for_429 msg
    else if server_error status
    then (20, upstream (status_of status))
    else if is_status status 408 || says msg (codes "timeout")
    then (10, timeout)
    else if is_status status 401 || is_status status 403
    then (if has_model_override then (0, no_reason) else (600, auth_error))
    else (0, no_reason)

-- A failure that comes from a limit of the provider, from the provider itself, or from the network,
-- makes it rest at least ten seconds and at most an hour; any other failure makes it rest just if it
-- is a refused login and the request named no model of its own.
pub backoff_bounds :
    (status : Option ℕ) (msg : Text) (has_model_override : Bool)
    → (if is_status status 429
          || server_error status
          || is_status status 408
          || says msg (codes "timeout")
        then leb 10 (backoff_for status msg has_model_override).0
          && leb (backoff_for status msg has_model_override).0 3600
        else eqb (backoff_for status msg has_model_override).0 (
            if (is_status status 401 || is_status status 403) && not has_model_override
            then 600
            else 0))
      ≡ true
unfolding backoff_for
backoff_bounds status msg has_model_override = ground arith
