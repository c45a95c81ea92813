-- ===== src/Providers/Models/Keyed.antt =====
-- glc/providers.py: the keys and the hosts of the providers that a process builds, beside the tables
-- of modal_app.py and glc/security/broker.py.
use gateway_glc_v.Common.{
  ◌≡◌, ◌⊎◌, inl, inr, refl, true, List, [], ◌∷◌, ◌++◌, Option, none, some, All, All-weaken,
}
use gateway_glc_v.Common.Text.{Text, codes, text_eq, starts_with}
use gateway_glc_v.Common.Dict.{Dict, get, put-All}
use gateway_glc_v.Broker.{llm_provider_domain}
use gateway_glc_v.Providers.Models.{
  Worker, Row, worker_rows, router_rows, Environ, key_in, worker_of, with_row, build_rows,
  with_ollama, with_capabilities, build_providers, build_router_providers,
}

-- `_PROVIDER_ENV_VAR` of modal_app.py: the one variable that the container of a provider shall hold.
abbrev pub provider_env_var : Dict Text Text
provider_env_var =
    (codes "gemini", codes "GEMINI_API_KEY")
    ∷ (codes "nvidia", codes "NVIDIA_API_KEY")
    ∷ (codes "groq", codes "GROQ_API_KEY")
    ∷ (codes "cerebras", codes "CEREBRAS_API_KEY")
    ∷ (codes "openrouter", codes "OPEN_ROUTER_API_KEY")
    ∷ (codes "github", codes "GITHUB_ACCESS_TOKEN")
    ∷ []

abbrev pub key_var_of : Text → Option Text
key_var_of name = get provider_env_var name

abbrev ReachesOwn : Text → Text → Type 0
ReachesOwn name url =
    (domain : Text) × (get llm_provider_domain name ≡ some domain)
    × (starts_with url (codes "https://" ++ domain ++ codes "/") ≡ true)

-- Built from its own key, for its own host.
abbrev pub IsKeyed : Environ → Text × Worker → Type 0
IsKeyed env (name, w) =
    (var : Text) × (key_var_of name ≡ some var)
    × (key_in env var ≡ some w.api_key)
    × ReachesOwn name w.base_url

abbrev pub IsKeyedOrLocal : Environ → Text × Worker → Type 0
IsKeyedOrLocal env (name, w) = (name ≡ codes "ollama") ⊎ IsKeyed env (name, w)

abbrev GoodRow : Row → Type 0
GoodRow row = (key_var_of row.name ≡ some row.key_var) × ReachesOwn row.name row.base_url

build_rows-IsKeyed :
    (rows : List Row) (env : Environ) (out : Dict Text Worker)
    → All GoodRow rows
    → All (IsKeyed env) out
    → All (IsKeyed env) (build_rows rows env out)
build_rows-IsKeyed [] env out good h = h
build_rows-IsKeyed (row ∷ rows) env out good h =
    build_rows-IsKeyed rows env (with_row env row (key_in env row.key_var) out) good.1
      (by_key (key_in env row.key_var) refl)
  where
    by_key :
        (o : Option Text) → key_in env row.key_var ≡ o → All (IsKeyed env) (with_row env row o out)
    by_key none e = h
    by_key (some key) e =
        put-All (IsKeyed env) out row.name (worker_of env row key) h
          (row.key_var, good.0.0, e, good.0.1)

good_workers : All GoodRow worker_rows
good_workers = (
  (refl, (_, refl, refl)),
  (
    (refl, (_, refl, refl)),
    (
      (refl, (_, refl, refl)),
      ((refl, (_, refl, refl)), ((refl, (_, refl, refl)), ((refl, (_, refl, refl)), tt))),
    ),
  ),
)

good_routers : All GoodRow router_rows
good_routers = (
  (refl, (_, refl, refl)),
  ((refl, (_, refl, refl)), ((refl, (_, refl, refl)), ((refl, (_, refl, refl)), tt))),
)

with_ollama-IsKeyedOrLocal :
    (env : Environ) (o : Option Text) (out : Dict Text Worker)
    → All (IsKeyedOrLocal env) out
    → All (IsKeyedOrLocal env) (with_ollama env o out)
with_ollama-IsKeyedOrLocal env none out h = h
with_ollama-IsKeyedOrLocal env (some model) out h =
    put-All (IsKeyedOrLocal env) out (codes "ollama") _ h (inl refl)

with_capabilities-IsKeyedOrLocal :
    (env : Environ) (out : Dict Text Worker)
    → All (IsKeyedOrLocal env) out
    → All (IsKeyedOrLocal env) (with_capabilities out)
with_capabilities-IsKeyedOrLocal env [] h = tt
with_capabilities-IsKeyedOrLocal env ((name, w) ∷ out) h =
    (h.0, with_capabilities-IsKeyedOrLocal env out h.1)

-- In any environment, each worker but the local Ollama, and each router, is built from the key in
-- the variable that modal_app.py names for its provider, which is set, and has a base URL at the host that the provider's
-- sandbox may reach.
pub providers-IsKeyed :
    (env : Environ)
    → All (IsKeyedOrLocal env) (build_providers env)
      × All (IsKeyed env) (build_router_providers env)
unfolding build_providers build_router_providers
providers-IsKeyed env = (
  with_capabilities-IsKeyedOrLocal env _ (
      with_ollama-IsKeyedOrLocal env _ _ (
        All-weaken (IsKeyed env) (IsKeyedOrLocal env) (λ row h. inr h)
          (build_rows worker_rows env []) (build_rows-IsKeyed worker_rows env [] good_workers tt))),
  build_rows-IsKeyed router_rows env [] good_routers tt,
)
