-- ===== src/Chat/Tests.antt =====
-- Runs of the chat pipeline on concrete inputs.
use gateway_glc_v.Common.{
  ℕ, ◌+◌, ◌≡◌, refl, Bool, true, false, [], ◌∷◌, Option, none, some, if◌then◌else◌, ok, err, arith,
  not, ◌||◌, ◌≤◌,
}
use gateway_glc_v.Common.Text.{codes}
use gateway_glc_v.Routing.Providers.{
  Provider, groq, gemini, same_provider, limits, Capability, tools, reasoning, structured, vision,
}
use gateway_glc_v.Routing.RateState.{
  can_use, gc, drop_calls, drop_tokens, refusal, new_state, record_call, add_tokens,
  mark_unavailable,
}
use gateway_glc_v.Routing.Ring.{
  Router, new_router, pick, consider, first_missing, try_use, state_of,
}
use gateway_glc_v.Chat.Prompt
use gateway_glc_v.Chat.Prompt.{
  parts, text_part, image_part, no_system, est_tokens, normalize_messages, system_of,
  extract_text_blocks, required_caps, asks_reasoning, any_message_image, build_sample,
}
use gateway_glc_v.Chat.Prompt.Vision.{picked_suits}
use gateway_glc_v.Chat.Backoff.{backoff_for}
use gateway_glc_v.Chat.Upstream.{Upstream, Reply, Failure, ask_provider, ask_twice}
use gateway_glc_v.Chat.Failover.{Request, Chat, serve, rounds, round, answered}
use gateway_glc_v.Chat.Rounds.{rounds_enough}
use gateway_glc_v.Chat.Tier.{RouterReply, times_1_4, excess}

abbrev ring : Router
ring = new_router (groq ∷ gemini ∷ []) (λ p c. true) (groq ∷ gemini ∷ [])

abbrev clock : ℕ → ℕ
clock n = 86400000000 + n

abbrev busy : Failure
busy = record {
  provider_error = true;
  status = some 429;
  message = codes "slow down";
  retryable = true;
}

abbrev hello : Reply
hello = record { text = codes "hello"; tool_calls = 0; input_tokens = some 7; output_tokens = none }

-- groq is busy, gemini answers
abbrev up : Upstream
up = record {
  ask = λ n p a. if same_provider p groq then err busy else ok hello;
  validate = λ t. true;
  response = λ reply. none;
}

abbrev request : Bool → Request
request override = record {
  est = 500;
  required_caps = tools ∷ [];
  explicit_override = override;
  has_model = false;
  structured = true;
}

abbrev begin : Chat
begin = record {
  rates = record { state = []; reads = 0 };
  calls = 0;
  retries = 0;
  attempts = [];
  log = [];
}

falls_back :
    (serve ring up clock (request false) (groq ∷ gemini ∷ []) begin).1 ≡ answered gemini hello
unfolding serve rounds round new_router pick consider first_missing try_use state_of can_use gc
    drop_calls drop_tokens refusal new_state limits ask_provider ask_twice backoff_for record_call
    add_tokens mark_unavailable
falls_back = refl

rounds_enough_example :
    rounds ring up clock (request false) 3 (groq ∷ gemini ∷ []) begin
    ≡ rounds ring up clock (request false) 9 (groq ∷ gemini ∷ []) begin
rounds_enough_example =
    rounds_enough ring up clock (request false) 3 9 (groq ∷ gemini ∷ []) begin (omega arith)
      (omega arith)

-- forty-five words: the product of doubles falls just below 63
estimate_45 : times_1_4 45 ≡ 62
unfolding times_1_4 excess
estimate_45 = refl

abbrev says_huge : ℕ → Provider → Option RouterReply
says_huge n p = some (record { text = codes "Huge."; tokens = 3 })

abbrev vision_caps : Provider → Capability → Bool
vision_caps gemini vision = true
vision_caps p vision = false
vision_caps p c = true

abbrev sees : Router
sees = new_router (groq ∷ gemini ∷ []) vision_caps (groq ∷ gemini ∷ [])

-- A request whose message shows an image.
abbrev looking : Prompt.Request
looking = record {
  messages =
      (record {
        role = codes "user";
        content = parts (text_part (codes "what is this?") ∷ image_part ∷ []);
      })
      ∷ [];
  prompt = none;
  system = no_system;
  cache_system = false;
  has_tools = false;
  reasoning = none;
  has_response_format = false;
  max_tokens = 100;
}

looking_estimated :
    est_tokens (normalize_messages looking) (system_of looking) looking.max_tokens ≡ 403
unfolding est_tokens normalize_messages system_of extract_text_blocks
looking_estimated = refl

gemini_sees :
    (pick sees clock
      (record { state = []; reads = 0 })
      (est_tokens (normalize_messages looking) (system_of looking) looking.max_tokens)
      (groq ∷ gemini ∷ [])
      (required_caps looking)).name
    ≡ some gemini
unfolding pick consider first_missing try_use state_of can_use gc refusal new_state est_tokens
    normalize_messages system_of extract_text_blocks required_caps new_router limits drop_calls
    drop_tokens
gemini_sees = refl

picked_suits_example :
    ((not looking.has_tools || sees.capable gemini tools) ≡ true)
    × ((not (asks_reasoning looking.reasoning) || sees.capable gemini reasoning) ≡ true)
    × ((not looking.has_response_format || sees.capable gemini structured) ≡ true)
    × ((not (any_message_image looking.messages) || sees.capable gemini vision) ≡ true)
    × (est_tokens (normalize_messages looking) (system_of looking) looking.max_tokens
        ≤ (limits gemini).max_ctx)
picked_suits_example =
    picked_suits sees clock (record { state = []; reads = 0 }) (groq ∷ gemini ∷ []) looking gemini
      gemini_sees
