-- ===== src/Broker.antt =====
-- glc/security/broker.py: the kinds of keyed call, the providers, and the broker that holds the
-- keys in its own process.
-- A JSON value that the broker passes on without looking at it is an `other J`. The providers, the
-- embedding ring and the speech services, with what they answer, are a Backends argument.
pub mod Entrypoint
pub mod Cloud
pub mod Modal
pub mod Scope
pub mod Isolation
pub mod Agrees
mod Tests
use gateway_glc_v.Common.{
  ℕ, Bool, true, false, ◌||◌, List, [], ◌∷◌, ◌++◌, map, Option, none, some, if◌then◌else◌, contains,
  Result, ok, err, ◌>>=◌, is_some,
}
use gateway_glc_v.Common.Text.{Text, codes, text_beq, text_eq}
use gateway_glc_v.Common.Dict.{Dict, get}
use gateway_glc_v.Capability.{CapabilityError}

abbrev pub chat_worker : Text
chat_worker = codes "chat_worker"

abbrev pub chat_router : Text
chat_router = codes "chat_router"

abbrev pub embed : Text
embed = codes "embed"

abbrev pub stt : Text
stt = codes "stt"

abbrev pub tts : Text
tts = codes "tts"

-- LLM_PROVIDER_DOMAIN and LLM_PROVIDERS
abbrev pub llm_provider_domain : Dict Text Text
llm_provider_domain =
    (codes "gemini", codes "generativelanguage.googleapis.com")
    ∷ (codes "nvidia", codes "integrate.api.nvidia.com")
    ∷ (codes "groq", codes "api.groq.com")
    ∷ (codes "cerebras", codes "api.cerebras.ai")
    ∷ (codes "openrouter", codes "openrouter.ai")
    ∷ (codes "github", codes "models.github.ai")
    ∷ []

abbrev pub llm_providers : List Text
llm_providers =
    codes "gemini"
    ∷ codes "nvidia"
    ∷ codes "groq"
    ∷ codes "cerebras"
    ∷ codes "openrouter"
    ∷ codes "github"
    ∷ []

-- `kind in (CHAT_WORKER, CHAT_ROUTER)`
abbrev pub is_chat : Text → Bool
is_chat kind = text_beq kind chat_worker || text_beq kind chat_router

pub data Value (J : Type 0) : Type 0 where
  null : Value J
  text : Text → Value J
  other : J → Value J

abbrev pub Payload : Type 0 → Type 0
Payload J = Dict Text (Value J)

-- What a call raises. `in_sandbox` is the RuntimeError that carries the text of an exception raised
-- in a sandbox.
pub data Raised : Type 0 where
  key_error : Option Text → Raised
  value_error : Text → Raised
  capability : CapabilityError → Raised
  runtime_error : Text → Raised
  type_error : Raised
  in_sandbox : Raised → Raised
  upstream : Text → Raised

pub record Provider (J : Type 0) : Type 0 where
  pub model : Text
  pub capabilities : J
  pub chat : Payload J → Result Raised (Value J)

pub record Embedder : Type 0 where
  pub name : Text
  pub model : Text

pub record Descriptor (J : Type 0) : Type 0 where
  pub name : Text
  pub model : Text
  pub capabilities : Option J

pub record EmbedResult (J : Type 0) : Type 0 where
  pub name : Text
  pub result : Value J
  pub attempts : J
  pub latency : ℕ

pub data Answer (J : Type 0) : Type 0 where
  plain : Value J → Answer J
  embedded : EmbedResult J → Answer J
  listing : List (Descriptor J) → Answer J

pub record Backends (J : Type 0) : Type 0 where
  pub build_providers : Dict Text (Provider J)
  pub build_router_providers : Dict Text (Provider J)
  pub build_embedders : List Embedder × List Text
  pub embed_with_failover :
      List Embedder → Value J → Value J → Value J → Result Raised (EmbedResult J)
  pub transcribe : Value J → Value J → Value J → Result Raised (Value J)
  pub synthesize : Value J → Value J → Value J → Result Raised (Value J)

pub record InProcessBroker (J : Type 0) : Type 0 where
  pub workers : Dict Text (Provider J)
  pub routers : Dict Text (Provider J)
  pub embedders : Option (List Embedder)
  pub embed_order : Option (List Text)

module _ {J : Type 0} where
  -- `payload[key]` and `payload.get(key, default)`
  abbrev pub item : Payload J → Text → Result Raised (Value J)
  item payload key = elim (get payload key) [ none ↦ err (key_error (some key)) | some v ↦ ok v ]

  abbrev item_or : Payload J → Text → Value J → Value J
  item_or payload key default = elim (get payload key) [ none ↦ default | some v ↦ v ]

  unfoldable pub new_broker : Backends J → InProcessBroker J
  new_broker B = record {
    workers = B.build_providers;
    routers = B.build_router_providers;
    embedders = none;
    embed_order = none;
  }

  -- `_ensure_embedders`
  unfoldable pub ensure_embedders : Backends J → InProcessBroker J → InProcessBroker J
  ensure_embedders B b = if is_some b.embedders then b else record b {
    embedders = some (B.build_embedders.0);
    embed_order = some (B.build_embedders.1);
  }

  -- `self._embedders or []`
  abbrev embedder_list : InProcessBroker J → List Embedder
  embedder_list b = elim b.embedders [ none ↦ [] | some es ↦ es ]

  abbrev is_text : Value J → Text → Bool
  is_text null s = false
  is_text (text t) s = text_beq t s
  is_text (other j) s = false

  abbrev describe_embedder : Embedder → Descriptor J
  describe_embedder e = record { name = e.name; model = e.model; capabilities = none }

  abbrev describe : Text × Provider J → Descriptor J
  describe (n, p) = record { name = n; model = p.model; capabilities = some p.capabilities }

  -- `enabled` of InProcessBroker; the `{}` of an embedder's capabilities is none
  unfoldable pub enabled :
      Backends J → InProcessBroker J → Value J → InProcessBroker J × List (Descriptor J)
  unfolding ensure_embedders
  enabled B b kind =
      let b' = ensure_embedders B b in
      if is_text kind embed
      then (b', map describe_embedder (embedder_list b'))
      else (b, map describe (if is_text kind chat_router then b.routers else b.workers))

  abbrev provider_of : Dict Text (Provider J) → Option Text → Result Raised (Provider J)
  provider_of pool none = err (key_error none)
  provider_of pool (some p) = elim (get pool p) [
    | none ↦ err (key_error (some p))
    | some worker ↦ ok worker
  ]

  -- `pool[provider].chat(**payload)`
  abbrev pub chat_in : Dict Text (Provider J) → Option Text → Payload J → Result Raised (Answer J)
  chat_in pool provider payload = do
    worker ← provider_of pool provider
    v ← worker.chat payload
    ok (plain v)

  abbrev embed_call : Backends J → InProcessBroker J → Payload J → Result Raised (Answer J)
  embed_call B b payload = do
    t ← item payload (codes "text")
    task ← item payload (codes "task_type")
    r ← B.embed_with_failover (embedder_list b) t task (item_or payload (codes "explicit") null)
    ok (embedded r)

  abbrev stt_call : Backends J → Payload J → Result Raised (Answer J)
  stt_call B payload = do
    audio ← item payload (codes "audio")
    mime ← item payload (codes "mime")
    v ← B.transcribe audio mime (item_or payload (codes "prefer") (text (codes "default")))
    ok (plain v)

  abbrev tts_call : Backends J → Payload J → Result Raised (Answer J)
  tts_call B payload = do
    t ← item payload (codes "text")
    v ←
        B.synthesize t (item_or payload (codes "voice_id") null)
          (item_or payload (codes "prefer") (text (codes "default")))
    ok (plain v)

  -- `call` of InProcessBroker
  unfoldable pub call :
      Backends J
      → InProcessBroker J
      → Text
      → Payload J
      → Option Text
      → InProcessBroker J × Result Raised (Answer J)
  call B b kind payload provider =
      if text_beq kind chat_worker
      then (b, chat_in b.workers provider payload)
      else if text_beq kind chat_router
      then (b, chat_in b.routers provider payload)
      else if text_beq kind embed
      then (let b' = ensure_embedders B b in (b', embed_call B b' payload))
      else if text_beq kind stt
      then (b, stt_call B payload)
      else if text_beq kind tts
      then (b, tts_call B payload)
      else (b, err (value_error kind))
