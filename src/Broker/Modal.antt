-- ===== src/Broker/Modal.antt =====
-- glc/security/broker.py: the brokers that hold no key, RemoteBroker, SandboxBroker and
-- HybridBroker, and the choice between them.
-- The tasks that `gather` starts are run in the order of the providers; each of them reads and
-- writes its own slot only.
use gateway_glc_v.Common.{
  ℕ, List, [], ◌∷◌, ◌++◌, Option, none, some, if◌then◌else◌, contains, Result, ok, err,
}
use gateway_glc_v.Common.Text.{Text, codes, text_beq, text_eq, lower}
use gateway_glc_v.Common.Dict.{get, put}
use gateway_glc_v.Capability.{mint}
use gateway_glc_v.Broker.{
  llm_provider_domain, llm_providers, is_chat, Payload, Raised, key_error, value_error, capability,
  type_error, runtime_error, Descriptor, Answer, InProcessBroker, new_broker,
}
use gateway_glc_v.Broker.Entrypoint.{Env, Request, or_kind, exec_handler, run}
use gateway_glc_v.Broker.Cloud.{
  Sandbox, Cloud, created, executed, remote, State, key_secret, sign_secret, exec_shared, exec_name,
  deployed, func_name, default_ttl, noted, descriptors, asks, from_sandbox, or_empty, running,
  exited, failed,
}

module _ (hmac : Text → Text → Text) {J : Type 0} (M : Cloud J) where
  -- `_get_broker` of modal_app.py
  abbrev warm : State J → Text → Env J → InProcessBroker J
  warm s fn E = elim (get s.containers fn) [ none ↦ new_broker E.backends | some b ↦ b ]

  -- `self._func(name).remote.aio(...)`
  unfoldable pub call_remote : State J → Text → Request J → State J × Result Raised (Answer J)
  call_remote s fn req = elim (M.call_fails s.tick) [
    | some message ↦ (noted s (remote fn req), err (runtime_error message))
    | none ↦ (elim (get deployed fn) [
      | none ↦ (noted s (remote fn req), err (runtime_error (codes "not found")))
      | some secrets ↦
          let E = M.environment secrets in
          let (b, r) = exec_handler hmac E (warm s fn E) (M.clock s.tick) req in
          (record (noted s (remote fn req)) { containers = put s.containers fn b }, r)
    ])
  ]

  -- `mint(scope, purpose=kind)`
  abbrev pub minted : State J → Option Text → Text → Text → Result Raised Text
  minted s key scope kind =
      elim (mint hmac key scope kind default_ttl (M.clock s.tick) (M.nonce s.tick)) [
        | err e ↦ err (capability e)
        | ok token ↦ ok token
      ]

  abbrev pub remote_sent :
      State J
      → Text
      → Payload J
      → Option Text
      → Result Raised Text
      → State J × Result Raised (Answer J)
  remote_sent s kind payload provider (err e) = (s, err e)
  remote_sent s kind payload provider (ok token) =
      call_remote s (func_name kind provider)
        (record { kind = kind; payload = payload; provider = provider; token = token })

  -- `call` of RemoteBroker
  unfoldable pub remote_call :
      Option Text → State J → Text → Payload J → Option Text → State J × Result Raised (Answer J)
  remote_call key s kind payload provider =
      remote_sent s kind payload provider (minted s key (or_kind provider kind) kind)

  -- `enabled` of RemoteBroker: one function after another, the exceptions left out
  remote_fan : State J → Text → List Text → State J × List (Descriptor J)
  remote_fan s kind [] = (s, [])
  remote_fan s kind (p ∷ ps) =
      let (s', r) = call_remote s (exec_name p) (asks kind) in
      let (s'', rest) = remote_fan s' kind ps in (s'', or_empty r ++ rest)

  unfoldable pub remote_enabled : State J → Text → State J × Result Raised (List (Descriptor J))
  unfolding remote_fan
  remote_enabled s kind =
      let (s', ds) = remote_fan s kind llm_providers in
      let (s'', r) = call_remote s exec_shared (asks kind) in
      if is_chat kind
      then (s', ok ds)
      else (s'', elim r [ err e ↦ err e | ok a ↦ ok (descriptors a) ])

  -- The cached sandbox of a provider, if `poll` says that it runs.
  abbrev pub live : State J → Text → Option Sandbox
  live s provider = elim (get s.sandboxes provider) [
    | none ↦ none
    | some sb ↦ (elim (M.poll sb s.tick) [ running ↦ some sb | exited ↦ none | failed ↦ none ])
  ]

  abbrev pub new_sandbox : Text → Text → ℕ → Sandbox
  new_sandbox provider domain born = record {
    secrets = key_secret provider ∷ sign_secret ∷ [];
    outbound_domain_allowlist = domain ∷ [];
    timeout = 3600;
    idle_timeout = 300;
    born = born;
  }

  -- `self._sandboxes[provider] = sb`, after `modal.Sandbox.create`
  abbrev pub kept_sandbox : State J → Text → Sandbox → State J
  kept_sandbox s provider sb = record (noted s (created provider sb)) {
    sandboxes = put s.sandboxes provider sb;
  }

  abbrev pub create_sandbox : State J → Text → Text → State J × Result Raised Sandbox
  create_sandbox s provider domain =
      let sb = new_sandbox provider domain s.tick in
      elim (M.create_fails s.tick) [
        | some message ↦ (s, err (runtime_error message))
        | none ↦ (kept_sandbox s provider sb, ok sb)
      ]

  -- `_sandbox_for`
  unfoldable pub sandbox_for : State J → Text → State J × Result Raised Sandbox
  sandbox_for s provider = elim (live s provider) [
    | some sb ↦ (s, ok sb)
    | none ↦ (elim (get llm_provider_domain provider) [
      | none ↦ (s, err (key_error (some provider)))
      | some domain ↦ create_sandbox s provider domain
    ])
  ]

  -- A result is printed as JSON by the entry point and read again, in the `try` of the entry point.
  abbrev pub printed : Result Raised (Answer J) → Result Raised (Answer J)
  printed (err e) = err e
  printed (ok a) = elim (M.json_answer a) [ none ↦ err type_error | some a' ↦ ok a' ]

  -- `sb.exec(...)` with a request, as the entry point reads it, and what is read from its output
  abbrev pub run_in : State J → Sandbox → Request J → Result Raised (Answer J)
  run_in s sb req = elim (M.call_fails s.tick) [
    | some message ↦ err (runtime_error message)
    | none ↦ from_sandbox (printed (run hmac (M.environment sb.secrets) (M.clock s.tick) req))
  ]

  abbrev pub exec_given :
      State J → Result Raised Sandbox → Text → Request J → State J × Result Raised (Answer J)
  exec_given s (err e) provider req = (s, err e)
  exec_given s (ok sb) provider req = elim (M.json_request req) [
    | none ↦ (s, err type_error)
    | some arg ↦ (noted s (executed provider sb req), run_in s sb arg)
  ]

  -- `_exec`
  unfoldable pub exec : State J → Text → Request J → State J × Result Raised (Answer J)
  exec s provider req = let (s', r) = sandbox_for s provider in exec_given s' r provider req

  -- `enabled` of SandboxBroker
  unfoldable pub sandbox_enabled : State J → Text → List Text → State J × List (Descriptor J)
  sandbox_enabled s kind [] = (s, [])
  sandbox_enabled s kind (p ∷ ps) =
      let (s', r) = exec s p (asks kind) in
      let (s'', rest) = sandbox_enabled s' kind ps in (s'', or_empty r ++ rest)

  abbrev pub sandbox_sent :
      State J → Text → Payload J → Text → Result Raised Text → State J × Result Raised (Answer J)
  sandbox_sent s kind payload p (err e) = (s, err e)
  sandbox_sent s kind payload p (ok token) =
      exec s p (record { kind = kind; payload = payload; provider = some p; token = token })

  -- `call` of SandboxBroker, once the provider is known
  abbrev pub sandbox_call_to :
      Option Text → State J → Text → Payload J → Text → State J × Result Raised (Answer J)
  sandbox_call_to key s kind payload p = sandbox_sent s kind payload p (minted s key p kind)

  unfoldable pub sandbox_call :
      Option Text → State J → Text → Payload J → Option Text → State J × Result Raised (Answer J)
  sandbox_call key s kind payload none = (s, err (value_error []))
  sandbox_call key s kind payload (some p) =
      if contains llm_providers p
      then sandbox_call_to key s kind payload p
      else (s, err (value_error p))

  -- `call` and `enabled` of HybridBroker
  unfoldable pub hybrid_call :
      Option Text → State J → Text → Payload J → Option Text → State J × Result Raised (Answer J)
  hybrid_call key s kind payload provider =
      if is_chat kind
      then sandbox_call key s kind payload provider
      else remote_call key s kind payload provider

  unfoldable pub hybrid_enabled : State J → Text → State J × Result Raised (List (Descriptor J))
  hybrid_enabled s kind =
      let (s', ds) = sandbox_enabled s kind llm_providers in
      if is_chat kind then (s', ok ds) else remote_enabled s kind

pub data Chosen : Type 0 where
  hybrid remote_only in_process : Chosen

-- `build_broker`: GLC_BROKER, or the empty text when it is not set
unfoldable pub build_broker : Text → Chosen
build_broker mode =
    if text_beq (lower mode) (codes "sandbox")
    then hybrid
    else if text_beq (lower mode) (codes "remote")
    then remote_only
    else in_process
