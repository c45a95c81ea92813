-- ===== src/Broker/Isolation.antt =====
-- glc/security/broker.py: what the brokers of the gateway ask of Modal over a sequence of calls.
use gateway_glc_v.Common.{
  ◌≡◌, ◌⊎◌, inl, inr, refl, false, List, [], ◌∷◌, Option, none, some, contains, Result, ok, err,
  All, All-append, Option-cases, Bool-cases, arith, if_both,
}
use gateway_glc_v.Common.Text.{Text, text_eq}
use gateway_glc_v.Common.Dict.{get, get-All, put-All}
use gateway_glc_v.Broker.{llm_provider_domain, llm_providers, is_chat, Payload, Raised, Answer}
use gateway_glc_v.Broker.Entrypoint.{enabled_kind, Request, or_kind}
use gateway_glc_v.Broker.Cloud.{
  Sandbox, Cloud, Event, created, executed, remote, State, start, key_secret, sign_secret,
  exec_shared, func_name, noted, asks, deployed,
}
use gateway_glc_v.Broker.Modal.{
  live, create_sandbox, sandbox_for, exec, call_remote, minted, remote_call, remote_enabled,
  sandbox_enabled, sandbox_call_to, sandbox_call, hybrid_call, hybrid_enabled, exec_given,
  sandbox_sent, remote_sent,
}

-- A sandbox that has the key of this provider only, and reaches the host of this provider only.
abbrev pub IsIsolated : Text × Sandbox → Type 0
IsIsolated (p, sb) =
    (sb.secrets ≡ key_secret p ∷ sign_secret ∷ [])
    × (domain : Text) × (get llm_provider_domain p ≡ some domain)
    × (sb.outbound_domain_allowlist ≡ domain ∷ [])

abbrev pub IsConfined : {J : Type 0} → Event J → Type 0
IsConfined (created p sb) = IsIsolated (p, sb)
IsConfined (executed p sb req) =
    IsIsolated (p, sb) × ((req.kind ≡ enabled_kind) ⊎ (req.provider ≡ some p))
IsConfined (remote fn req) = (fn ≡ exec_shared) × (is_chat req.kind ≡ false)

abbrev pub StateIsConfined : {J : Type 0} → State J → Type 0
StateIsConfined s = All IsIsolated s.sandboxes × All IsConfined s.log

-- One use of the gateway's broker.
pub data Use (J : Type 0) : Type 0 where
  calls : Option Text → Text → Payload J → Option Text → Use J
  asks_enabled : Text → Use J

module _ (hmac : Text → Text → Text) {J : Type 0} (M : Cloud J) where
  abbrev used : State J → Use J → State J
  used s (calls key kind payload provider) = (hybrid_call hmac M key s kind payload provider).0
  used s (asks_enabled kind) = (hybrid_enabled hmac M s kind).0

  -- The gateway's broker after a sequence of uses.
  abbrev pub used_all : State J → List (Use J) → State J
  used_all s [] = s
  used_all s (u ∷ us) = used_all (used s u) us

  noted-StateIsConfined :
      (s : State J) (e : Event J) → StateIsConfined s → IsConfined e → StateIsConfined (noted s e)
  noted-StateIsConfined s e h new = (h.0, All-append IsConfined s.log (e ∷ []) h.1 (new, tt))

  pub live-IsIsolated :
      (s : State J) (p : Text) (sb : Sandbox)
      → StateIsConfined s
      → live hmac M s p ≡ some sb
      → IsIsolated (p, sb)
  live-IsIsolated s p sb h found = elim (Option-cases (get s.sandboxes p)) [
    | inl missing ↦ ground (arith, missing, found)
    | inr (sb', cached) ↦
        let same : sb' ≡ sb = ground (arith, cached, found) in
        rw (← same) (get-All IsIsolated s.sandboxes p sb' h.0 cached)
  ]

  -- A sandbox that `sandbox_for` gives.
  abbrev GivenIsIsolated : Text → Result Raised Sandbox → Type 0
  GivenIsIsolated p (err e) = Unit
  GivenIsIsolated p (ok sb) = IsIsolated (p, sb)

  abbrev IsServed : Text → State J × Result Raised Sandbox → Type 0
  IsServed p x = StateIsConfined (x.0) × GivenIsIsolated p (x.1)

  create_sandbox-IsServed :
      (s : State J) (p domain : Text)
      → StateIsConfined s
      → get llm_provider_domain p ≡ some domain
      → IsServed p (create_sandbox hmac M s p domain)
  create_sandbox-IsServed s p domain h found = elim (Option-cases (M.create_fails s.tick)) [
    | inl fine ↦
        rw (fine, create_sandbox)
          (
            (
              put-All IsIsolated s.sandboxes p _ h.0 (refl, domain, found, refl),
              All-append IsConfined s.log _ h.1 ((refl, domain, found, refl), tt),
            ),
            (refl, domain, found, refl),
          )
    | inr (message, fails) ↦ rw (fails, create_sandbox) (h, tt)
  ]

  sandbox_for-IsServed :
      (s : State J) (p : Text) → StateIsConfined s → IsServed p (sandbox_for hmac M s p)
  unfolding sandbox_for
  sandbox_for-IsServed s p h = elim (Option-cases (live hmac M s p)) [
    | inr (sb, found) ↦ rw (found, sandbox_for) (h, live-IsIsolated s p sb h found)
    | inl none_live ↦
        rw (none_live, sandbox_for)
          (elim (Option-cases (get llm_provider_domain p)) [
            | inl missing ↦ rw (missing) (h, tt)
            | inr (domain, found) ↦ rw (found) (create_sandbox-IsServed s p domain h found)
          ])
  ]

  exec_given-StateIsConfined :
      (s : State J) (r : Result Raised Sandbox) (p : Text) (req : Request J)
      → (req.kind ≡ enabled_kind) ⊎ (req.provider ≡ some p)
      → IsServed p (s, r)
      → StateIsConfined ((exec_given hmac M s r p req).0)
  exec_given-StateIsConfined s (err e) p req own served = served.0
  exec_given-StateIsConfined s (ok sb) p req own served = elim (Option-cases (M.json_request req)) [
    | inl no_json ↦ rw (no_json, exec_given) served.0
    | inr (arg, is_json) ↦
        rw (is_json, exec_given) (noted-StateIsConfined s _ (served.0) (served.1, own))
  ]

  exec-StateIsConfined :
      (s : State J) (p : Text) (req : Request J)
      → (req.kind ≡ enabled_kind) ⊎ (req.provider ≡ some p)
      → StateIsConfined s
      → StateIsConfined ((exec hmac M s p req).0)
  unfolding exec
  exec-StateIsConfined s p req own h =
      let (s', r) = sandbox_for hmac M s p in
      exec_given-StateIsConfined s' r p req own (sandbox_for-IsServed s p h)

  call_remote-StateIsConfined :
      (s : State J) (req : Request J)
      → is_chat req.kind ≡ false
      → StateIsConfined s
      → StateIsConfined ((call_remote hmac M s exec_shared req).0)
  unfolding call_remote
  call_remote-StateIsConfined s req other h =
      let kept = noted-StateIsConfined s (remote exec_shared req) h (refl, other) in
      elim (Option-cases (M.call_fails s.tick)) [
        | inr (message, fails) ↦ rw (fails, call_remote) kept
        | inl fine ↦
            rw (fine, call_remote)
              (elim (Option-cases (get deployed exec_shared)) [
                | inl missing ↦ rw (missing) kept
                | inr (secrets, found) ↦ rw (found) kept
              ])
      ]

  sandbox_call_to-StateIsConfined :
      (key : Option Text) (s : State J) (kind : Text) (payload : Payload J) (p : Text)
      → StateIsConfined s
      → StateIsConfined ((sandbox_call_to hmac M key s kind payload p).0)
  sandbox_call_to-StateIsConfined key s kind payload p h = go (minted hmac M s key p kind)
    where
      go : (r : Result Raised Text) → StateIsConfined ((sandbox_sent hmac M s kind payload p r).0)
      go (err e) = h
      go (ok token) = exec-StateIsConfined s p _ (inr refl) h

  sandbox_call-StateIsConfined :
      (key : Option Text) (s : State J) (kind : Text) (payload : Payload J) (provider : Option Text)
      → StateIsConfined s
      → StateIsConfined ((sandbox_call hmac M key s kind payload provider).0)
  unfolding sandbox_call
  sandbox_call-StateIsConfined key s kind payload none h = h
  sandbox_call-StateIsConfined key s kind payload (some p) h =
      if_both (λ (x : State J × Result Raised (Answer J)). StateIsConfined (x.0))
        (contains llm_providers p) (sandbox_call_to hmac M key s kind payload p) _
        (sandbox_call_to-StateIsConfined key s kind payload p h) h

  func_name_other :
      (kind : Text) (provider : Option Text)
      → is_chat kind ≡ false
      → func_name kind provider ≡ exec_shared
  unfolding func_name
  func_name_other kind none h = refl
  func_name_other kind (some p) h = rw (h) refl

  remote_call-StateIsConfined :
      (key : Option Text) (s : State J) (kind : Text) (payload : Payload J) (provider : Option Text)
      → is_chat kind ≡ false
      → StateIsConfined s
      → StateIsConfined ((remote_call hmac M key s kind payload provider).0)
  unfolding remote_call
  remote_call-StateIsConfined key s kind payload provider other h =
      go (minted hmac M s key (or_kind provider kind) kind)
    where
      go :
          (r : Result Raised Text)
          → StateIsConfined ((remote_sent hmac M s kind payload provider r).0)
      go (err e) = h
      go (ok token) =
          rw (func_name_other kind provider other) (call_remote-StateIsConfined s _ other h)

  sandbox_enabled-StateIsConfined :
      (s : State J) (kind : Text) (ps : List Text)
      → StateIsConfined s
      → StateIsConfined ((sandbox_enabled hmac M s kind ps).0)
  unfolding sandbox_enabled
  sandbox_enabled-StateIsConfined s kind [] h = h
  sandbox_enabled-StateIsConfined s kind (p ∷ ps) h =
      sandbox_enabled-StateIsConfined ((exec hmac M s p (asks kind)).0) kind ps
        (exec-StateIsConfined s p (asks kind) (inl refl) h)

  remote_enabled-StateIsConfined :
      (s : State J) (kind : Text)
      → is_chat kind ≡ false
      → StateIsConfined s
      → StateIsConfined ((remote_enabled hmac M s kind).0)
  unfolding remote_enabled
  remote_enabled-StateIsConfined s kind other h =
      rw (other) (call_remote-StateIsConfined s (asks kind) refl h)

  used-StateIsConfined : (s : State J) (u : Use J) → StateIsConfined s → StateIsConfined (used s u)
  unfolding hybrid_call hybrid_enabled
  used-StateIsConfined s (calls key kind payload provider) h = elim (Bool-cases (is_chat kind)) [
    | inl chat ↦ rw (chat, used) (sandbox_call-StateIsConfined key s kind payload provider h)
    | inr other ↦ rw (other, used) (remote_call-StateIsConfined key s kind payload provider other h)
  ]
  used-StateIsConfined s (asks_enabled kind) h = elim (Bool-cases (is_chat kind)) [
    | inl chat ↦ rw (chat, used) (sandbox_enabled-StateIsConfined s kind llm_providers h)
    | inr other ↦ rw (other, used) (remote_enabled-StateIsConfined s kind other h)
  ]

  -- In any sequence of calls and listings that the hybrid broker serves from its start, whatever
  -- Modal answers, each sandbox that is created or kept has only its own provider's key beside the
  -- signing key and reaches only that provider's host, each request for a provider runs in a
  -- sandbox of that provider, and only the kinds other than chat go to a function, the shared one.
  pub used_all-StateIsConfined : (us : List (Use J)) → StateIsConfined (used_all start us)
  used_all-StateIsConfined us = keeps start us (tt, tt)
    where
      keeps :
          (s : State J) (us : List (Use J)) → StateIsConfined s → StateIsConfined (used_all s us)
      keeps s [] h = h
      keeps s (u ∷ us) h = keeps (used s u) us (used-StateIsConfined s u h)
