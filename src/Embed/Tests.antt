-- ===== src/Embed/Tests.antt =====
-- A run of the ring of embedders.
use gateway_glc_v.Common.{
  ℕ, ◌+◌, ◌≡◌, refl, if◌then◌else◌, List, [], ◌∷◌, none, some, Result, ok, err, keep,
}
use gateway_glc_v.Common.Text.{Text, codes, text_beq}
use gateway_glc_v.Embed.{
  States, EmbedRateState, is_wanted, embedded, embed_with_failover, embed_ring, can_use, gc,
  record_success, mark_failure,
}
use gateway_glc_v.Embed.Ring.{Fits, embed-Fits}
use gateway_glc_v.Routing.RateState.{drop_calls}

abbrev idle : EmbedRateState
idle = record {
  rpm = 10;
  cooldown = 0;
  calls_minute = [];
  last_call = 0;
  unavailable_until = 0;
  unavailable_reason = [];
  backoff_step = 0;
}

abbrev two : List Text
two = codes "ollama" ∷ codes "gemini" ∷ []

abbrev all_idle : States
all_idle name = idle

-- the local embedder is down
abbrev ask : ℕ → Text → Result Text ℕ
ask n name = if text_beq name (codes "gemini") then ok 768 else err (codes "down")

abbrev clock : ℕ → ℕ
clock n = 86400000000 + n

falls_back :
    (embed_with_failover clock ask none two 0 all_idle).outcome ≡ embedded (codes "gemini") 768
unfolding embed_with_failover embed_ring can_use gc record_success mark_failure drop_calls
falls_back = refl

-- an empty name is no name
still_falls_back :
    (embed_with_failover clock ask (some []) two 0 all_idle).outcome ≡ embedded (codes "gemini") 768
unfolding embed_with_failover embed_ring can_use gc record_success mark_failure drop_calls
still_falls_back = refl

embed-Fits_example :
    Fits clock ask none
      (record { reads = 0; states = all_idle })
      (keep (is_wanted none) two)
      (embed_with_failover clock ask none two 0 all_idle)
embed-Fits_example = embed-Fits clock ask none two 0 all_idle
