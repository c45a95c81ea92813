-- ===== src/Broker/Entrypoint.antt =====
-- glc/security/broker_entrypoint.py and `_broker_exec_handler` of modal_app.py: the request that a
-- container with keys serves, once the capability token is checked.
use gateway_glc_v.Common.{ℕ, [], ◌∷◌, Option, none, some, if◌then◌else◌, Result, ok, err}
use gateway_glc_v.Common.Text.{Text, codes, text_beq}
use gateway_glc_v.Capability.{CapabilityError, verify}
use gateway_glc_v.Broker.{
  Payload, Raised, capability, Answer, listing, Backends, InProcessBroker, item, new_broker,
  enabled, call,
}

abbrev pub enabled_kind : Text
enabled_kind = codes "__enabled__"

-- A container's environment: the signing key, and what its provider keys let it build.
pub record Env (J : Type 0) : Type 0 where
  pub sign_key : Option Text
  pub backends : Backends J

pub record Request (J : Type 0) : Type 0 where
  pub kind : Text
  pub payload : Payload J
  pub provider : Option Text
  pub token : Text

-- `provider or kind`
abbrev pub or_kind : Option Text → Text → Text
or_kind none kind = kind
or_kind (some []) kind = kind
or_kind (some (c ∷ p)) kind = c ∷ p

module _ (hmac : Text → Text → Text) {J : Type 0} where
  -- `verify(token, provider=provider or kind, purpose=kind)`
  abbrev pub verified : Env J → ℕ → Request J → Result CapabilityError (Unit {0})
  verified E now req = verify hmac E.sign_key req.token (or_kind req.provider req.kind) req.kind now

  -- One request to a broker: the broker afterwards, and what is returned or raised.
  unfoldable pub exec_handler :
      Env J → InProcessBroker J → ℕ → Request J → InProcessBroker J × Result Raised (Answer J)
  exec_handler E b now req =
      if text_beq req.kind enabled_kind
      then (elim (item req.payload (codes "kind")) [
        | err e ↦ (b, err e)
        | ok asked ↦ let (b', ds) = enabled E.backends b asked in (b', ok (listing ds))
      ])
      else (elim (verified E now req) [
        | err e ↦ (b, err (capability e))
        | ok _ ↦ call E.backends b req.kind req.payload req.provider
      ])

  -- `_run`, which builds a broker of its own
  unfoldable pub run : Env J → ℕ → Request J → Result Raised (Answer J)
  run E now req = (exec_handler E (new_broker E.backends) now req).1
