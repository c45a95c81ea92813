-- ===== src/Providers/Models.antt =====
-- glc/providers.py: which providers a process builds from its environment, and what its models can do.
pub mod Keyed
use gateway_glc_v.Common.{
  Bool, true, false, not, ◌&&◌, ◌||◌, List, [], ◌∷◌, ◌++◌, Option, none, some, if◌then◌else◌,
  contains, is_some,
}
use gateway_glc_v.Common.Text.{Text, codes, text_beq, text_eq, lower, has_part}
use gateway_glc_v.Common.Dict.{Dict, get, put}

-- `any(h in m for h in hints)`
abbrev any_part : List Text → Text → Bool
any_part [] m = false
any_part (h ∷ hints) m = has_part m h || any_part hints m

abbrev vision_model_hints : List Text
vision_model_hints =
    codes "gpt-4o"
    ∷ codes "gpt-4.1"
    ∷ codes "gpt-5"
    ∷ codes "gpt-4-turbo"
    ∷ codes "claude-3"
    ∷ codes "claude-4"
    ∷ codes "claude-opus"
    ∷ codes "claude-sonnet"
    ∷ codes "claude-haiku"
    ∷ codes "gemini"
    ∷ codes "llava"
    ∷ codes "qwen2-vl"
    ∷ codes "qwen2.5-vl"
    ∷ codes "qwen3-vl"
    ∷ codes "llama-3.2-11b-vision"
    ∷ codes "llama-3.2-90b-vision"
    ∷ codes "minicpm-v"
    ∷ codes "molmo"
    ∷ codes "pixtral"
    ∷ codes "internvl"
    ∷ codes "gemma3"
    ∷ codes "phi-4-multimodal"
    ∷ codes "-vl"
    ∷ codes "vision"
    ∷ codes "vlm"
    ∷ []

-- `_model_supports_vision`
unfoldable pub model_supports_vision : Text → Text → Bool
model_supports_vision provider model =
    if text_beq provider (codes "gemini")
    then true
    else if text_beq provider (codes "cerebras")
    then false
    else any_part vision_model_hints (lower model)

abbrev reasoning_model_hints : List Text
reasoning_model_hints =
    codes "gpt-oss"
    ∷ codes "qwen3-think"
    ∷ codes "deepseek-r1"
    ∷ codes "deepseek-r2"
    ∷ codes "qwen3"
    ∷ codes "o1"
    ∷ codes "o3"
    ∷ codes "o4"
    ∷ codes "gpt-5"
    ∷ []

-- `_model_supports_reasoning`
unfoldable pub model_supports_reasoning : Text → Bool
model_supports_reasoning model = any_part reasoning_model_hints (lower model)

pub data ThinkingKnob : Type 0 where
  level budget : ThinkingKnob

-- `_gemini_thinking_knob`
unfoldable pub gemini_thinking_knob : Text → Option ThinkingKnob
gemini_thinking_knob model =
    let m = lower model in
    if not (has_part m (codes "gemini"))
    then none
    else if has_part m (codes "flash-lite")
    then none
    else if has_part m (codes "2.5-pro")
        || has_part m (codes "3-pro")
        || has_part m (codes "3.1-pro")
    then some level
    else if has_part m (codes "3-flash") || has_part m (codes "3.1-flash")
    then some level
    else if has_part m (codes "2.5-flash")
    then some budget
    else none

pub record Capabilities : Type 0 where
  pub tools : Bool
  pub caching : Bool
  pub reasoning : Bool
  pub structured : Bool
  pub parallel_tools : Bool
  pub vision : Bool

abbrev reasons : Text → Text → Bool → Bool
reasons provider model default =
    if text_beq provider (codes "gemini")
    then is_some (gemini_thinking_knob model)
    else if text_beq provider (codes "ollama")
    then false
    else if contains
        (codes "groq"
          ∷ codes "cerebras"
          ∷ codes "nvidia"
          ∷ codes "openrouter"
          ∷ codes "github"
          ∷ [])
        provider
    then model_supports_reasoning model
    else default

unfoldable pub model_capabilities : Text → Text → Capabilities → Capabilities
model_capabilities provider model default = record default {
  reasoning = reasons provider model default.reasoning;
  tools = text_beq provider (codes "ollama") || default.tools;
  vision = model_supports_vision provider model;
}

-- A provider object: the parts that its constructor and its class set.
pub record Worker : Type 0 where
  pub api_key : Text
  pub model : Text
  pub base_url : Text
  pub capabilities : Capabilities

-- One `if k := os.getenv(...)` of `build_providers` or `build_router_providers`, with its class.
pub record Row : Type 0 where
  pub name : Text
  pub key_var : Text
  pub model_var : Text
  pub default_model : Text
  pub base_url : Text
  pub capabilities : Capabilities

-- OpenAICompatProvider.capabilities with `reasoning`, as its five classes have it
abbrev openai_capabilities : Capabilities
openai_capabilities = record {
  tools = true;
  caching = true;
  reasoning = true;
  structured = true;
  parallel_tools = true;
  vision = false;
}

abbrev gemini_capabilities : Capabilities
gemini_capabilities = record openai_capabilities { vision = true }

abbrev ollama_capabilities : Capabilities
ollama_capabilities = record {
  tools = true;
  caching = false;
  reasoning = false;
  structured = true;
  parallel_tools = false;
  vision = false;
}

abbrev pub gemini_row : Row
gemini_row = record {
  name = codes "gemini";
  key_var = codes "GEMINI_API_KEY";
  model_var = codes "GEMINI_MODEL";
  default_model = codes "gemini-2.5-flash";
  base_url = codes "https://generativelanguage.googleapis.com/v1beta";
  capabilities = gemini_capabilities;
}

abbrev pub nvidia_row : Row
nvidia_row = record {
  name = codes "nvidia";
  key_var = codes "NVIDIA_API_KEY";
  model_var = codes "NVIDIA_MODEL";
  default_model = codes "deepseek-ai/deepseek-v3.2";
  base_url = codes "https://integrate.api.nvidia.com/v1";
  capabilities = openai_capabilities;
}

abbrev pub groq_row : Row
groq_row = record {
  name = codes "groq";
  key_var = codes "GROQ_API_KEY";
  model_var = codes "GROQ_MODEL";
  default_model = codes "openai/gpt-oss-120b";
  base_url = codes "https://api.groq.com/openai/v1";
  capabilities = openai_capabilities;
}

abbrev pub cerebras_row : Row
cerebras_row = record {
  name = codes "cerebras";
  key_var = codes "CEREBRAS_API_KEY";
  model_var = codes "CEREBRAS_MODEL";
  default_model = codes "zai-glm-4.7";
  base_url = codes "https://api.cerebras.ai/v1";
  capabilities = openai_capabilities;
}

abbrev pub openrouter_row : Row
openrouter_row = record {
  name = codes "openrouter";
  key_var = codes "OPEN_ROUTER_API_KEY";
  model_var = codes "OPENROUTER_MODEL";
  default_model = codes "nvidia/nemotron-3-super-120b-a12b:free";
  base_url = codes "https://openrouter.ai/api/v1";
  capabilities = openai_capabilities;
}

abbrev pub github_row : Row
github_row = record {
  name = codes "github";
  key_var = codes "GITHUB_ACCESS_TOKEN";
  model_var = codes "GITHUB_MODEL";
  default_model = codes "openai/gpt-4.1-mini";
  base_url = codes "https://models.github.ai/inference";
  capabilities = openai_capabilities;
}

abbrev pub worker_rows : List Row
worker_rows = gemini_row ∷ nvidia_row ∷ groq_row ∷ cerebras_row ∷ openrouter_row ∷ github_row ∷ []

-- ROUTER_DEFAULTS, and the variables of the router pool
abbrev pub router_rows : List Row
router_rows =
    record cerebras_row {
      model_var = codes "ROUTER_CEREBRAS_MODEL";
      default_model = codes "llama3.1-8b";
    }
    ∷ record groq_row {
      model_var = codes "ROUTER_GROQ_MODEL";
      default_model = codes "llama-3.3-70b-versatile";
    }
    ∷ record nvidia_row {
      model_var = codes "ROUTER_NVIDIA_MODEL";
      default_model = codes "nvidia/llama-3.1-nemotron-nano-8b-v1";
    }
    ∷ record github_row {
      model_var = codes "ROUTER_GITHUB_MODEL";
      default_model = codes "microsoft/Phi-4-mini-instruct";
    }
    ∷ []

abbrev pub Environ : Type 0
Environ = Dict Text Text

-- `os.getenv(var)`, if it is set to a text that is not empty
abbrev nonempty : Option Text → Option Text
nonempty none = none
nonempty (some []) = none
nonempty (some (c ∷ s)) = some (c ∷ s)

abbrev pub key_in : Environ → Text → Option Text
key_in env var = nonempty (get env var)

-- `os.getenv(var, default)`
abbrev env_or : Environ → Text → Text → Text
env_or env var default = elim (get env var) [ none ↦ default | some v ↦ v ]

abbrev pub worker_of : Environ → Row → Text → Worker
worker_of env row key = record {
  api_key = key;
  model = env_or env row.model_var row.default_model;
  base_url = row.base_url;
  capabilities = row.capabilities;
}

abbrev pub with_row : Environ → Row → Option Text → Dict Text Worker → Dict Text Worker
with_row env row none out = out
with_row env row (some key) out = put out row.name (worker_of env row key)

abbrev pub build_rows : List Row → Environ → Dict Text Worker → Dict Text Worker
build_rows [] env out = out
build_rows (row ∷ rows) env out =
    build_rows rows env (with_row env row (key_in env row.key_var) out)

abbrev pub ollama_worker : Environ → Text → Worker
ollama_worker env model = record {
  api_key = [];
  model = model;
  base_url = env_or env (codes "OLLAMA_URL") (codes "http://localhost:11434");
  capabilities = ollama_capabilities;
}

abbrev pub with_ollama : Environ → Option Text → Dict Text Worker → Dict Text Worker
with_ollama env none out = out
with_ollama env (some model) out = put out (codes "ollama") (ollama_worker env model)

abbrev pub with_capabilities : Dict Text Worker → Dict Text Worker
with_capabilities [] = []
with_capabilities ((name, w) ∷ rest) =
    (name, record w { capabilities = model_capabilities name w.model w.capabilities })
    ∷ with_capabilities rest

unfoldable pub build_providers : Environ → Dict Text Worker
build_providers env =
    with_capabilities
      (with_ollama env (key_in env (codes "OLLAMA_MODEL")) (build_rows worker_rows env []))

unfoldable pub build_router_providers : Environ → Dict Text Worker
build_router_providers env = build_rows router_rows env []
