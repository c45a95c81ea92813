-- ===== src/Routing/Ring.antt =====
-- `Router` and `RouterPool` of glc/routing.py. The clock gives the n-th reading of `time.time()`.
use gateway_glc_v.Common.{
  ℕ, ◌+◌, Bool, List, [], ◌∷◌, Option, none, some, if◌then◌else◌, ltb, contains, keep,
}
use gateway_glc_v.Common.Dict.{Dict, get, put}
use gateway_glc_v.Common.Text.{Text}
use gateway_glc_v.Routing.Providers.{Provider, provider_eq, Capability, limits, resolve}
use gateway_glc_v.Routing.RateState.{
  RateState, Readings, Skip, Snapshot, snapshot, new_state, can_use,
}

-- The part of `Router` that does not change.
pub record Router : Type 0 where
  pub providers : List Provider
  pub order : List Provider
  pub capable : Provider → Capability → Bool

-- `self.state`, and the number of times that the clock was read.
pub record Rates : Type 0 where
  pub state : Dict Provider RateState
  pub reads : ℕ

-- `Router.__init__`
unfoldable pub new_router : List Provider → (Provider → Capability → Bool) → List Provider → Router
new_router providers capable order = record {
  providers = providers;
  order = keep (λ p. contains providers p) order;
  capable = capable;
}

abbrev known : List Provider → Option Provider → List Provider
known providers none = []
known providers (some r) = if contains providers r then r ∷ [] else []

-- an empty override is none
unfoldable pub candidates : Router → Option Text → List Provider
candidates r none = r.order
candidates r (some []) = r.order
candidates r (some (c ∷ name)) = known r.providers (resolve (c ∷ name))

pub data Reason : Type 0 where
  skipped_no : Capability → Reason
  prompt_too_long : ℕ → ℕ → Reason
  skipped : Skip → Reason

pub record Attempt : Type 0 where
  pub provider : Provider
  pub reason : Reason

-- `missing[0]`, if any capability is missing
unfoldable pub first_missing : (Capability → Bool) → List Capability → Option Capability
first_missing caps [] = none
first_missing caps (c ∷ cs) = let rest = first_missing caps cs in if caps c then rest else some c

abbrev or_new : Option RateState → ℕ → RateState
or_new none now = new_state now
or_new (some s) now = s

-- `self.state[name]` of the `defaultdict`; the clock is read for a new entry
unfoldable pub state_of : (ℕ → ℕ) → Rates → Provider → RateState
state_of clock w name = or_new (get w.state name) (clock w.reads)

abbrev pub readings : (ℕ → ℕ) → ℕ → Readings
readings clock n = record { gc_now = clock n; day_now = clock (n + 1); now = clock (n + 2) }

-- `self.state[name].can_use(LIMITS[name], est_tokens)`
unfoldable pub try_use : (ℕ → ℕ) → Rates → Provider → ℕ → Rates × Option Skip
try_use clock w name est =
    let (s, why) =
      can_use (state_of clock w name) (limits name) est (readings clock (w.reads + 1)) in
    (record { state = put w.state name s; reads = w.reads + 4 }, why)

pub record Picked : Type 0 where
  pub name : Option Provider
  pub attempts : List Attempt
  pub rates : Rates

abbrev pub add_attempt : Provider → Reason → Picked → Picked
add_attempt name why p = record p {
  attempts = (record { provider = name; reason = why }) ∷ p.attempts;
}

abbrev pub decide_use : Provider → Rates × Option Skip → (Rates → Picked) → Picked
decide_use name (w, none) next = record { name = some name; attempts = []; rates = w }
decide_use name (w, some why) next = add_attempt name (skipped why) (next w)

-- one round of the loop of `pick`
unfoldable pub consider :
    (ℕ → ℕ) → Rates → Provider → ℕ → Option Capability → (Rates → Picked) → Picked
consider clock w name est (some c) next = add_attempt name (skipped_no c) (next w)
consider clock w name est none next =
    if ltb (limits name).max_ctx est
    then add_attempt name (prompt_too_long est (limits name).max_ctx) (next w)
    else decide_use name (try_use clock w name est) next

unfoldable pub pick : Router → (ℕ → ℕ) → Rates → ℕ → List Provider → List Capability → Picked
pick r clock w est [] caps = record { name = none; attempts = []; rates = w }
pick r clock w est (name ∷ names) caps =
    consider clock w name est (first_missing (r.capable name) caps)
      (λ w'. pick r clock w' est names caps)

-- `RouterPool.pick`: no capability and no context limit is asked for
unfoldable pub pool_pick : (ℕ → ℕ) → Rates → ℕ → List Provider → Picked
pool_pick clock w est [] = record { name = none; attempts = []; rates = w }
pool_pick clock w est (name ∷ names) =
    decide_use name (try_use clock w name est) (λ w'. pool_pick clock w' est names)

-- `all_status`
unfoldable pub all_status : (ℕ → ℕ) → Rates → List Provider → Rates × List (Provider × Snapshot)
all_status clock w [] = (w, [])
all_status clock w (name ∷ names) =
    let (s, shot) = snapshot (state_of clock w name) (limits name) (readings clock (w.reads + 1)) in
    let w' : Rates = record { state = put w.state name s; reads = w.reads + 4 } in
    let (w'', shots) = all_status clock w' names in (w'', (name, shot) ∷ shots)
