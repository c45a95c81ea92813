-- ===== src/Lib.antt =====
-- Gateway GLC: a gateway between chat channels and model providers.
--
-- The gateway takes messages of channel adapters (a WebSocket, or a webhook) and requests of clients
-- (`/v1/chat`). A message passes the allowlist and the rate limiter and leaves a row in the audit log;
-- who the owners of a channel are is the pairing store's to say, which the control plane fills. A chat
-- request has its remote images fetched behind the SSRF guard, is given a tier by a router model or a
-- provider of its own, and goes round the ring of providers until one of them answers. A tool call is
-- judged by the policy engine. The provider keys are in containers of their own: a call of the broker
-- carries a capability token, and runs where only its provider's key is.
--
-- Files, and the code that they model:
--   RateLimits   glc/security/rate_limits.py   `RateLimiter`; `check` is `_check`, `gc` is `_gc`
--   Pairing      glc/security/pairing.py       `PairingStore`, two tables; trust_level.py `classify`
--   Audit        glc/audit/store.py            `append`, `verify_chain`, `walk` is its loop
--   Policy       glc/policy/engine.py          `Condition` and `Glob` its tests, `Engine` the verdict,
--                                              `Packaged` the rules of policy.yaml
--   Allowlist    glc/security/allowlists.py    `allowed`
--   Capability   glc/security/capabilities.py  `mint`, `verify`
--   Ssrf         glc/security/ssrf.py          `resolve_validated`
--   Images       glc/routes/chat.py            `_resolve_image_urls`
--   Routing      glc/routing.py                `RateState`, and `Ring` with `Router` and `RouterPool`
--   Channels     glc/routes/channels.py        `turn` is one round of `channel_ws`, `serve` its loop;
--                                              `channel_webhook`, `channel_webhook_verify`
--   Control      glc/routes/control.py         the control routes, and the middleware of glc/main.py
--   Chat         glc/routes/chat.py            `Backoff`, `Tier` (`_classify_tier`), `Upstream` (one
--                                              provider), `Failover` (the loop of `chat`),
--                                              `Prompt` (what a request asks)
--   Embed        glc/embedders.py              `EmbedRateState`, `embed_with_failover`
--   Broker       glc/security/broker.py        `InProcessBroker`; `Entrypoint` has broker_entrypoint.py
--                                              and the handler of modal_app.py, `Modal` the brokers
--                                              without keys
--   Adapters     glc/channels/catalogue        `Webhook`, `Line`, `Chats` (Telegram, Slack, Discord),
--                                              `TwilioSms` with its artifact store
--   Providers    glc/providers.py              `Models` has `build_providers` and the capabilities,
--                                              `Schema` `_gemini_clean_schema`
--   Cache        glc/cache.py                  `GeminiCache`
--   Common       shared lemmas: lists, dictionaries, texts, numbers, results
--
-- State is passed explicitly: an operation takes the state and gives the new one with its answer. A
-- time is a number of microseconds, and every reading of the clock is an argument or a value of an
-- oracle that is indexed by the number of the reading, so nothing is assumed of the clock but where a
-- theorem says so. `none` stands for the answer `(True, "")`; refusals are constructors with the values
-- that their messages show. Dictionaries and SQL tables are association lists. SHA-256, HMAC, JSON,
-- DNS, HTTP, `fnmatch`, `re` and the providers are arguments.
--
-- Bounds: the image fetch takes six connections, as `_MAX_REDIRECTS + 1`; the failover loop takes one
-- round more than there are candidates, as the source does; `decimal` has one digit of fuel more than
-- the number; the walk of a schema has one unit for each definition, since a path follows none twice.
-- Everything else is recursion on a list.
--
-- Not modelled: streaming, batch and vision requests, the embedding route, the wait for a provider that a
-- request names; the adapters' test doubles and HTTP clients; the adapters of WhatsApp, Gmail, IMAP,
-- Matrix, Signal, Teams, Twilio Voice, the microphone and the web page; the translation of messages for
-- each provider and the providers' HTTP clients; prices, voice, the command line and SQL itself.
pub mod Common
pub mod RateLimits
pub mod Pairing
pub mod Providers
pub mod Audit
pub mod Broker
pub mod Cache
pub mod Policy
pub mod Adapters
pub mod Allowlist
pub mod Capability
pub mod Ssrf
pub mod Images
pub mod Routing
pub mod Channels
pub mod Control
pub mod Embed
pub mod Chat
