-- ===== src/Broker/Cloud.antt =====
-- glc/security/broker.py and modal_app.py: what the brokers without keys see of Modal.
-- A Cloud argument says what Modal does: the environment that a container gets from its secrets,
-- and, by a counter of the calls made, whether a sandbox still runs, a call that fails, the clock
-- and the nonces; and what comes of a request and of an answer that go to a sandbox and back as
-- JSON texts. `log` records each sandbox created and each request sent.
use gateway_glc_v.Common.{
  ℕ, ◌+◌, Bool, false, ◌&&◌, List, [], ◌∷◌, ◌++◌, Option, none, some, if◌then◌else◌, contains,
  Result, ok, err,
}
use gateway_glc_v.Common.Text.{Text, codes, text_eq}
use gateway_glc_v.Common.Dict.{Dict}
use gateway_glc_v.Broker.{
  llm_providers, is_chat, text, Raised, in_sandbox, Descriptor, Answer, plain, embedded, listing,
  InProcessBroker,
}
use gateway_glc_v.Broker.Entrypoint.{enabled_kind, Env, Request}

pub record Sandbox : Type 0 where
  pub secrets : List Text
  pub outbound_domain_allowlist : List Text
  pub timeout : ℕ
  pub idle_timeout : ℕ
  pub born : ℕ

pub data Poll : Type 0 where
  running exited failed : Poll

-- `json_request` and `json_answer` give what `json.loads` reads of `json.dumps` of a value, and none
-- where `json.dumps` raises a TypeError, for a value that is no JSON such as a pydantic model.
pub record Cloud (J : Type 0) : Type 0 where
  pub environment : List Text → Env J
  pub poll : Sandbox → ℕ → Poll
  pub create_fails : ℕ → Option Text
  pub call_fails : ℕ → Option Text
  pub clock : ℕ → ℕ
  pub nonce : ℕ → Text
  pub json_request : Request J → Option (Request J)
  pub json_answer : Answer J → Option (Answer J)

pub data Event (J : Type 0) : Type 0 where
  created : Text → Sandbox → Event J
  executed : Text → Sandbox → Request J → Event J
  remote : Text → Request J → Event J

-- The gateway's brokers, with the containers of the functions, which keep a broker while warm.
pub record State (J : Type 0) : Type 0 where
  pub sandboxes : Dict Text Sandbox
  pub containers : Dict Text (InProcessBroker J)
  pub tick : ℕ
  pub log : List (Event J)

abbrev pub start : {J : Type 0} → State J
start = record { sandboxes = []; containers = []; tick = 0; log = [] }

abbrev pub key_secret : Text → Text
key_secret provider = codes "glc-key-" ++ provider

abbrev pub sign_secret : Text
sign_secret = codes "glc-broker-sign"

abbrev pub shared_secret : Text
shared_secret = codes "glc-llm-keys"

abbrev pub exec_shared : Text
exec_shared = codes "broker_exec_shared"

abbrev pub exec_name : Text → Text
exec_name provider = codes "broker_exec_" ++ provider

-- The functions of modal_app.py and the secrets each is deployed with.
deployed_from : List Text → Dict Text (List Text)
deployed_from [] = (exec_shared, shared_secret ∷ sign_secret ∷ []) ∷ []
deployed_from (p ∷ ps) = (exec_name p, key_secret p ∷ sign_secret ∷ []) ∷ deployed_from ps

unfoldable pub deployed : Dict Text (List Text)
unfolding deployed_from
deployed = deployed_from llm_providers

-- `provider in LLM_PROVIDERS`
abbrev pub is_llm : Option Text → Bool
is_llm none = false
is_llm (some p) = contains llm_providers p

-- `_func_name`
unfoldable pub func_name : Text → Option Text → Text
func_name kind none = exec_shared
func_name kind (some p) =
    if is_chat kind && contains llm_providers p then exec_name p else exec_shared

abbrev pub default_ttl : ℕ
default_ttl = 30

module _ {J : Type 0} where
  abbrev pub noted : State J → Event J → State J
  noted s e = record s { tick = s.tick + 1; log = s.log ++ e ∷ [] }

  -- The descriptors in an answer: `out.extend(r)`, `isinstance(r, list)`
  abbrev pub descriptors : Answer J → List (Descriptor J)
  descriptors (plain v) = []
  descriptors (embedded r) = []
  descriptors (listing ds) = ds

  abbrev pub asks : Text → Request J
  asks kind = record {
    kind = enabled_kind;
    payload = (codes "kind", text kind) ∷ [];
    provider = none;
    token = [];
  }

  -- `{"ok": false, "error": ...}` is raised again as a RuntimeError
  abbrev pub from_sandbox : Result Raised (Answer J) → Result Raised (Answer J)
  from_sandbox (err e) = err (in_sandbox e)
  from_sandbox (ok a) = ok a

  -- `list` of a `gather` with exceptions dropped, `_one` of SandboxBroker
  abbrev pub or_empty : Result Raised (Answer J) → List (Descriptor J)
  or_empty (err e) = []
  or_empty (ok a) = descriptors a
