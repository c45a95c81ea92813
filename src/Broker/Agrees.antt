-- ===== src/Broker/Agrees.antt =====
-- glc/security/broker.py: the hybrid broker beside a broker that has the provider's key in its own
-- process.
use gateway_glc_v.Common.{
  ℕ, ◌+◌, ◌/◌, ◌≡◌, ◌⊎◌, ap, Bool, refl, true, false, List, [], ◌∷◌, Option, none, some,
  if◌then◌else◌, sec, ltb, Result, ok, err, ◌∙◌, arith, All, inl, inr, Bool-cases, Option-cases,
  contains, beq_refl,
}
use gateway_glc_v.Common.Text.{Text, text_beq, text_beq_iff, text_eq, Without}
use gateway_glc_v.Common.Dict.{get}
use gateway_glc_v.Capability.{bar, token_expired, mint}
use gateway_glc_v.Capability.Tokens.{IsHex, minted_scope}
use gateway_glc_v.Broker.{
  chat_worker, chat_router, llm_provider_domain, llm_providers, is_chat, Payload, Raised, Answer,
  capability, new_broker, call,
}
use gateway_glc_v.Broker.Entrypoint.{enabled_kind, Env, Request, or_kind, verified, run}
use gateway_glc_v.Broker.Scope.{handler_keyed}
use gateway_glc_v.Broker.Isolation.{StateIsConfined, live-IsIsolated}
use gateway_glc_v.Broker.Cloud.{
  Sandbox, Cloud, State, key_secret, sign_secret, default_ttl, from_sandbox,
}
use gateway_glc_v.Broker.Modal.{
  live, create_sandbox, sandbox_for, printed, run_in, exec_given, exec, minted, sandbox_call_to,
  sandbox_sent, sandbox_call, hybrid_call, kept_sandbox, new_sandbox,
}

contains-All {ℓ} :
    (P : Text → Type ℓ) (ks : List Text) (k : Text) → contains ks k ≡ true → All P ks → P k
contains-All P [] k h all = absurd (ground arith)
contains-All P (j ∷ ks) k h all = elim (Bool-cases (text_beq k j)) [
  | inl same ↦ let k_is : k ≡ j = (text_beq_iff k j).0 same in rw (k_is) all.0
  | inr differ ↦ contains-All P ks k (ground (arith, differ, h)) all.1
]

abbrev HasDomain : Text → Type 0
HasDomain p = (domain : Text) × (get llm_provider_domain p ≡ some domain)

llm-HasDomain : (p : Text) → contains llm_providers p ≡ true → HasDomain p
llm-HasDomain p h =
    contains-All HasDomain llm_providers p h
      ((_, refl), ((_, refl), ((_, refl), ((_, refl), ((_, refl), ((_, refl), tt))))))

llm_no_bar : (p : Text) → contains llm_providers p ≡ true → Without bar p
llm_no_bar p h = contains-All (Without bar) llm_providers p h (ground arith)

chat_no_bar : (kind : Text) → is_chat kind ≡ true → Without bar kind
chat_no_bar kind h =
    contains-All (Without bar) (chat_worker ∷ chat_router ∷ []) kind (ground (arith, h))
      (ground arith)

chat_not_enabled : (kind : Text) → is_chat kind ≡ true → text_beq kind enabled_kind ≡ false
chat_not_enabled kind h =
    contains-All (λ k. text_beq k enabled_kind ≡ false) (chat_worker ∷ chat_router ∷ []) kind
      (ground (arith, h)) (refl, (refl, tt))

llm_or_kind : (p kind : Text) → contains llm_providers p ≡ true → or_kind (some p) kind ≡ p
llm_or_kind [] kind h = absurd (ground (arith, h))
llm_or_kind (c ∷ p) kind h = refl

abbrev pub own_secrets : Text → List Text
own_secrets p = key_secret p ∷ sign_secret ∷ []

module _ (hmac : Text → Text → Text) {J : Type 0} (M : Cloud J) where
  -- Where a sandbox can be created, `sandbox_for` gives one with the provider's own secrets.
  sandbox_served :
      (s : State J) (p : Text)
      → StateIsConfined s
      → contains llm_providers p ≡ true
      → M.create_fails s.tick ≡ none
      → (s' : State J) × (sb : Sandbox) × (sandbox_for hmac M s p ≡ (s', ok sb))
        × (sb.secrets ≡ own_secrets p)
        × ((s'.tick ≡ s.tick) ⊎ (s'.tick ≡ s.tick + 1))
  unfolding sandbox_for
  sandbox_served s p h known fine = elim (Option-cases (live hmac M s p)) [
    | inr (sb, found) ↦
        (s, sb, rw (found, sandbox_for) refl, (live-IsIsolated hmac M s p sb h found).0, inl refl)
    | inl none_live ↦
        let (domain, found) = llm-HasDomain p known in
        let sb = new_sandbox hmac M p domain s.tick in
        let made = create_sandbox hmac M s p domain in
        let created_it : made ≡ (kept_sandbox hmac M s p sb, ok sb) =
          rw (fine, create_sandbox) refl in
        (
          kept_sandbox hmac M s p sb,
          sb,
          rw (none_live, found, sandbox_for) created_it,
          refl,
          inr refl,
        )
  ]

  hybrid_to_sandbox :
      (key : Option Text) (s : State J) (kind : Text) (payload : Payload J) (p : Text)
      → is_chat kind ≡ true
      → contains llm_providers p ≡ true
      → hybrid_call hmac M key s kind payload (some p)
        ≡ sandbox_sent hmac M s kind payload p (minted hmac M s key p kind)
  unfolding hybrid_call sandbox_call
  hybrid_to_sandbox key s kind payload p chat known =
      let inner : sandbox_call hmac M key s kind payload (some p)
          ≡ sandbox_call_to hmac M key s kind payload p =
        rw (known, sandbox_call) refl in
      rw (chat, hybrid_call) inner

  minted_ok :
      (s : State J) (key : Option Text) (scope kind token : Text)
      → mint hmac key scope kind default_ttl (M.clock s.tick) (M.nonce s.tick) ≡ ok token
      → minted hmac M s key scope kind ≡ ok token
  minted_ok s key scope kind token made = rw (made, minted) refl

  exec_answer :
      (s : State J) (p : Text) (req : Request J) (s' : State J) (sb : Sandbox)
      → sandbox_for hmac M s p ≡ (s', ok sb)
      → M.call_fails s'.tick ≡ none
      → M.json_request req ≡ some req
      → (exec hmac M s p req).1
        ≡ from_sandbox (printed hmac M (run hmac (M.environment sb.secrets) (M.clock s'.tick) req))
  unfolding exec
  exec_answer s p req s' sb given fine is_json =
      rw (given, exec) (rw (is_json, exec_given) (rw (fine, run_in) refl))

  -- An answer that is JSON comes back as it is.
  printed_same :
      (r : Result Raised (Answer J))
      → ((a : Answer J) → r ≡ ok a → M.json_answer a ≡ some a)
      → printed hmac M r ≡ r
  printed_same (err e) h = refl
  printed_same (ok a) h = rw (h a refl, printed) refl

  printed_verdict :
      (late : Bool) (e : Raised) (r : Result Raised (Answer J))
      → ((a : Answer J) → r ≡ ok a → M.json_answer a ≡ some a)
      → printed hmac M (if late then err e else r) ≡ (if late then err e else r)
  printed_verdict true e r h = refl
  printed_verdict false e r h = printed_same r h

  run_verdict :
      (E : Env J) (now : ℕ) (req : Request J) (late : Bool)
      → text_beq req.kind enabled_kind ≡ false
      → verified hmac E now req ≡ (if late then err token_expired else ok tt)
      → run hmac E now req ≡ (
          if late
          then err (capability token_expired)
          else (call E.backends (new_broker E.backends) req.kind req.payload req.provider).1)
  unfolding run
  run_verdict E now req true other given =
      ap (λ x. x.1)
        (handler_keyed hmac E (new_broker E.backends) now req (err token_expired) other given)
  run_verdict E now req false other given =
      ap (λ x. x.1) (handler_keyed hmac E (new_broker E.backends) now req (ok tt) other given)

  module _ (hex : (key msg : Text) → All IsHex (hmac key msg)) where
    -- A chat or router call for a known provider through the hybrid broker, served after any state
    -- in which every sandbox is confined, returns what a broker built in this process on that
    -- provider's own key returns, an exception as a RuntimeError, unless the call reaches the
    -- sandbox more than 30 whole seconds after its token was minted, which raises the expiry. This
    -- is so where the payload, with any token, and the answer are JSON and are read as they were
    -- written, the sandbox has the gateway's signing key, which is not empty, Modal creates and runs
    -- sandboxes, the signature is hexadecimal and the nonce has no bar.
    pub hybrid_call_exact :
        (k : ℕ) (key : Text) (s : State J) (kind : Text) (payload : Payload J) (p : Text)
        → StateIsConfined s
        → is_chat kind ≡ true
        → contains llm_providers p ≡ true
        → (M.environment (own_secrets p)).sign_key ≡ some (k ∷ key)
        → ((n : ℕ) → (M.create_fails n ≡ none) × (M.call_fails n ≡ none))
        → Without bar (M.nonce s.tick)
        → ((token : Text)
            → M.json_request
                (record { kind = kind; payload = payload; provider = some p; token = token })
              ≡ some (record { kind = kind; payload = payload; provider = some p; token = token }))
        → ((a : Answer J)
            → (let B = (M.environment (own_secrets p)).backends in
                (call B (new_broker B) kind payload (some p)).1)
              ≡ ok a
            → M.json_answer a ≡ some a)
        → (n : ℕ) × ((n ≡ s.tick) ⊎ (n ≡ s.tick + 1))
          × ((hybrid_call hmac M (some (k ∷ key)) s kind payload (some p)).1
              ≡ from_sandbox (
                  if ltb (M.clock s.tick / sec + default_ttl) (M.clock n / sec)
                  then err (capability token_expired)
                  else let B = (M.environment (own_secrets p)).backends in
                    (call B (new_broker B) kind payload (some p)).1))
    hybrid_call_exact k key s kind payload p h chat known same_key fine plain_nonce is_json back =
        let (s', sb, given, secrets, ticks) = sandbox_served s p h known (fine s.tick).0 in
        let (token, made, scope) =
          minted_scope hmac hex k key p kind (M.nonce s.tick) default_ttl (M.clock s.tick)
            (llm_no_bar p known) (chat_no_bar kind chat) plain_nonce in
        let req : Request J = record {
          kind = kind;
          payload = payload;
          provider = some p;
          token = token;
        } in
        (
          s'.tick,
          ticks,
          rw
              (
                hybrid_to_sandbox (some (k ∷ key)) s kind payload p chat known,
                minted_ok s (some (k ∷ key)) p kind token made,
                exec_answer s p req s' sb given (fine s'.tick).1 (is_json token),
                secrets,
              )
              (ap from_sandbox (
                ap (printed hmac M) (
                  run_verdict (M.environment (own_secrets p)) (M.clock s'.tick) req _
                    (chat_not_enabled kind chat)
                    (rw
                      (
                        same_key,
                        llm_or_kind p kind known,
                        scope p kind (M.clock s'.tick),
                        beq_refl p,
                        beq_refl kind,
                      )
                      refl))
                ∙ printed_verdict _ (capability token_expired) _ back)),
        )
