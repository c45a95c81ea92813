-- ===== src/Broker/Tests.antt =====
-- Keyed calls through the brokers, with one worker per container and a fixed signature.
use gateway_glc_v.Common.{
  ℕ, ◌+◌, ◌*◌, ◌/◌, ◌≡◌, ◌⊎◌, refl, [], ◌∷◌, none, some, if◌then◌else◌, sec, ltb, ok, err, arith,
  All,
}
use gateway_glc_v.Common.Text.{Text, codes, strip}
use gateway_glc_v.Common.Numbers.{decimal, parse_int}
use gateway_glc_v.Capability.{mint, verify, wrong_scope, token_expired}
use gateway_glc_v.Capability.Tokens.{token_of, IsHex}
use gateway_glc_v.Broker.{
  chat_worker, embed, null, other, capability, Provider, plain, Backends, new_broker, call,
}
use gateway_glc_v.Broker.Entrypoint.{Request, exec_handler}
use gateway_glc_v.Broker.Cloud.{
  Cloud, running, start, default_ttl, from_sandbox, func_name, exec_name, exec_shared,
}
use gateway_glc_v.Broker.Modal.{hybrid_call, build_broker, hybrid}
use gateway_glc_v.Broker.Scope.{other_scope_refused}
use gateway_glc_v.Broker.Isolation.{
  StateIsConfined, calls, asks_enabled, used_all, used_all-StateIsConfined,
}
use gateway_glc_v.Broker.Agrees.{hybrid_call_exact}

abbrev toy : Text → Text → Text
toy key msg = codes "ab"

toy-IsHex : (key msg : Text) → All IsHex (toy key msg)
toy-IsHex key msg = (refl, (refl, tt))

abbrev groq : Text
groq = codes "groq"

abbrev worker : Provider ℕ
worker = record { model = codes "m"; capabilities = 0; chat = λ payload. ok (other 7) }

abbrev backends : Backends ℕ
backends = record {
  build_providers = (groq, worker) ∷ [];
  build_router_providers = [];
  build_embedders = ([], []);
  embed_with_failover =
      λ es t task explicit. ok (record { name = groq; result = null; attempts = 0; latency = 3 });
  transcribe = λ audio mime prefer. ok audio;
  synthesize = λ t voice prefer. ok t;
}

abbrev cloud : Cloud ℕ
cloud = record {
  environment = λ secrets. record { sign_key = some (codes "k"); backends = backends };
  poll = λ sb n. running;
  create_fails = λ n. none;
  call_fails = λ n. none;
  clock = λ n. 5 * sec;
  nonce = λ n. codes "n1";
  json_request = λ req. some req;
  json_answer = λ a. some a;
}

abbrev token : Text
token = token_of groq chat_worker (codes "35") (codes "n1") (codes "ab")

token_minted : mint toy (some (codes "k")) groq chat_worker 30 (5 * sec) (codes "n1") ≡ ok token
unfolding mint decimal
token_minted = refl

abbrev request : Request ℕ
request = record { kind = chat_worker; payload = []; provider = some groq; token = token }

request_answered :
    (exec_handler toy
      (record { sign_key = some (codes "k"); backends = backends })
      (new_broker backends)
      (9 * sec)
      request).1
    ≡ ok (plain (other 7))
unfolding exec_handler verify parse_int strip call new_broker
request_answered = refl

function_of_groq : func_name chat_worker (some groq) ≡ exec_name groq
unfolding func_name
function_of_groq = refl

function_of_speech : func_name (codes "stt") (some groq) ≡ exec_shared
unfolding func_name
function_of_speech = refl

sandbox_chosen : build_broker (codes "Sandbox") ≡ hybrid
unfolding build_broker
sandbox_chosen = refl

used_all-StateIsConfined_example : StateIsConfined (
    used_all toy cloud start (
      calls (some (codes "k")) chat_worker [] (some groq)
      ∷ asks_enabled chat_worker
      ∷ calls (some (codes "k")) embed [] none
      ∷ []))
used_all-StateIsConfined_example = used_all-StateIsConfined toy cloud (
    calls (some (codes "k")) chat_worker [] (some groq)
    ∷ asks_enabled chat_worker
    ∷ calls (some (codes "k")) embed [] none
    ∷ [])

abbrev gemini_request : Request ℕ
gemini_request = record request { provider = some (codes "gemini") }

other_scope_refused_example :
    exec_handler toy
      (record { sign_key = some (codes "k"); backends = backends })
      (new_broker backends)
      (9 * sec)
      gemini_request
    ≡ (new_broker backends, err (capability wrong_scope))
other_scope_refused_example =
    other_scope_refused toy toy-IsHex b'k' [] groq chat_worker (codes "n1") token 30 (5 * sec)
      (9 * sec) backends (new_broker backends) gemini_request (ground arith) (ground arith)
      (ground arith) token_minted refl refl refl

hybrid_call_exact_example :
    (n : ℕ) × ((n ≡ 0) ⊎ (n ≡ 1))
    × ((hybrid_call toy cloud (some (codes "k")) start chat_worker [] (some groq)).1
        ≡ from_sandbox (
            if ltb (5 * sec / sec + default_ttl) (5 * sec / sec)
            then err (capability token_expired)
            else (call backends (new_broker backends) chat_worker [] (some groq)).1))
hybrid_call_exact_example =
    hybrid_call_exact toy cloud toy-IsHex b'k' [] start chat_worker [] groq (tt, tt) refl refl refl
      (λ n. (refl, refl)) (ground arith) (λ t. refl) (λ a done. refl)
