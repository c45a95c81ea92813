-- ===== src/Broker/Scope.antt =====
-- What the container that holds a key demands of a request before it makes a keyed call.
use gateway_glc_v.Common.{ℕ, ◌/◌, ◌≡◌, refl, false, ◌&&◌, ◌∷◌, some, sec, Result, ok, err, All}
use gateway_glc_v.Common.Text.{Text, text_beq, Without}
use gateway_glc_v.Common.Numbers.{ℤ, parse_int, int_ltb}
use gateway_glc_v.Capability.{CapabilityError, bar, wrong_scope, body_of, mint}
use gateway_glc_v.Capability.Tokens.{token_of, IsHex, verify_sound, minted_scope}
use gateway_glc_v.Broker.{Raised, capability, Answer, Backends, InProcessBroker, call}
use gateway_glc_v.Broker.Entrypoint.{enabled_kind, Env, Request, or_kind, verified, exec_handler}

module _ (hmac : Text → Text → Text) {J : Type 0} where
  -- What the handler returns or raises for a keyed call, by the verdict on its token.
  abbrev pub keyed :
      Env J
      → InProcessBroker J
      → Request J
      → Result CapabilityError (Unit {0})
      → InProcessBroker J × Result Raised (Answer J)
  keyed E b req (err e) = (b, err (capability e))
  keyed E b req (ok _) = call E.backends b req.kind req.payload req.provider

  pub handler_keyed :
      (E : Env J) (b : InProcessBroker J) (now : ℕ) (req : Request J)
      (verdict : Result CapabilityError (Unit {0}))
      → text_beq req.kind enabled_kind ≡ false
      → verified hmac E now req ≡ verdict
      → exec_handler hmac E b now req ≡ keyed E b req verdict
  unfolding exec_handler
  handler_keyed E b now req (err e) other given = rw (other, given) refl
  handler_keyed E b now req (ok _) other given = rw (other, given) refl

  ok_verdict :
      (E : Env J) (b : InProcessBroker J) (now : ℕ) (req : Request J) (a : Answer J)
      (verdict : Result CapabilityError (Unit {0}))
      → text_beq req.kind enabled_kind ≡ false
      → verified hmac E now req ≡ verdict
      → (exec_handler hmac E b now req).1 ≡ ok a
      → verdict ≡ ok tt
  ok_verdict E b now req a (err e) other given done =
      let raised = handler_keyed E b now req (err e) other given in cc (raised, done)
  ok_verdict E b now req a (ok _) other given done = refl

  -- A container answers a keyed call, any request but the listing, only where the request's token
  -- is one for that provider, or that kind if no provider is named, and that kind, signed under the
  -- container's key, with an expiry that has not passed.
  pub answered_has_token :
      (k : ℕ) (key : Text) (B : Backends J) (b : InProcessBroker J) (now : ℕ) (req : Request J)
      (a : Answer J)
      → text_beq req.kind enabled_kind ≡ false
      → (exec_handler hmac (record { sign_key = some (k ∷ key); backends = B }) b now req).1 ≡ ok a
      → (exp_s : Text) × (nonce : Text) × (exp : ℤ) × (req.token
          ≡ token_of
              (or_kind req.provider req.kind)
              req.kind
              exp_s
              nonce
              (hmac (k ∷ key) (body_of (or_kind req.provider req.kind) req.kind exp_s nonce)))
        × (parse_int exp_s ≡ some exp)
        × (int_ltb exp (now / sec) ≡ false)
  answered_has_token k key B b now req a other done =
      let E : Env J = record { sign_key = some (k ∷ key); backends = B } in
      verify_sound hmac k key req.token (or_kind req.provider req.kind) req.kind now
        (ok_verdict E b now req a (verified hmac E now req) other refl done)

  module _ (hex : (key msg : Text) → All IsHex (hmac key msg)) where
    -- A token minted for one provider and one kind of call lets no container that holds the minting
    -- key make any other keyed call: at any time and with any payload, a request with that token for
    -- another provider or another kind raises the scope error, and changes nothing. This is so where
    -- the key is not empty, the HMAC is hexadecimal, and the provider, the kind and the nonce of the
    -- token have no bar.
    pub other_scope_refused :
        (k : ℕ) (key p u nonce token : Text) (ttl minted_at now : ℕ) (B : Backends J)
        (b : InProcessBroker J) (req : Request J)
        → Without bar p
        → Without bar u
        → Without bar nonce
        → mint hmac (some (k ∷ key)) p u ttl minted_at nonce ≡ ok token
        → req.token ≡ token
        → text_beq req.kind enabled_kind ≡ false
        → (text_beq p (or_kind req.provider req.kind) && text_beq u req.kind) ≡ false
        → exec_handler hmac (record { sign_key = some (k ∷ key); backends = B }) b now req
          ≡ (b, err (capability wrong_scope))
    other_scope_refused k key p u nonce token ttl minted_at now B b req hp hu hn made same other
          differs =
        let E : Env J = record { sign_key = some (k ∷ key); backends = B } in
        let (t, t_made, scope) = minted_scope hmac hex k key p u nonce ttl minted_at hp hu hn in
        let t_is : req.token ≡ t = cc (made, t_made, same) in
        handler_keyed E b now req (err wrong_scope) other
          (rw (t_is, scope (or_kind req.provider req.kind) req.kind now, differs) refl)
