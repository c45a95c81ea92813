-- ===== src/Adapters/Line/Once.antt =====
-- glc/channels/catalogue/line/adapter.py: the tokens that the adapter keeps, over runs of events and
-- replies.
use gateway_glc_v.Common.{
  ℕ, ◌+◌, ◌*◌, ◌≤◌, String, String-eq, false, List, [], ◌∷◌, Option, none, some, if◌then◌else◌, sec,
  arith,
}
use gateway_glc_v.Common.Text.{Text, text_beq, text_eq}
use gateway_glc_v.Common.Dict.{get, put, remove}
use gateway_glc_v.Adapters.{Security, Config}
use gateway_glc_v.Adapters.Line.{
  LineEvent, Tokens, Payload, reply_with, push_to, unexpired, store_token, payload_of, on_message,
  send, or_empty,
}

-- An event that is received, or a reply that is sent while the transport has no token of its own.
pub data Step : Type 0 where
  hears : LineEvent → ℕ → Step
  says : String → Option Text → ℕ → Step

abbrev pub uses : Text → Payload → ℕ
uses t (reply_with token text) = if text_beq token t then 1 else 0
uses t (push_to user text) = 0

-- How often the token is kept.
abbrev kept : Text → Tokens → ℕ
kept t [] = 0
kept t ((u, (token, e)) ∷ rest) = (if text_beq token t then 1 else 0) + kept t rest

kept-put :
    (t : Text) (d : Tokens) (u : String) (token : Text) (e : ℕ)
    → kept t (put d u (token, e)) ≤ kept t d + (if text_beq token t then 1 else 0)
kept-put t [] u token e = omega arith
kept-put t ((v, (other, x)) ∷ d) u token e = ground (arith, kept-put t d u token e)

abbrev kept_one : Text → Option (Text × ℕ) → ℕ
kept_one t none = 0
kept_one t (some (token, e)) = if text_beq token t then 1 else 0

kept-remove_le : (t : Text) (d : Tokens) (u : String) → kept t (remove d u) ≤ kept t d
kept-remove_le t [] u = omega arith
kept-remove_le t ((v, (other, x)) ∷ d) u = ground (arith, kept-remove_le t d u)

kept-remove :
    (t : Text) (d : Tokens) (u : String) → kept t (remove d u) + kept_one t (get d u) ≤ kept t d
kept-remove t [] u = omega arith
kept-remove t ((v, (other, x)) ∷ d) u = ground (arith, kept-remove t d u, kept-remove_le t d u)

uses-unexpired :
    (t : Text) (u : String) (text : Text) (o : Option (Text × ℕ)) (now : ℕ)
    → uses t (payload_of u text (unexpired o now)) ≤ kept_one t o
uses-unexpired t u text none now = omega arith
uses-unexpired t u text (some ([], e)) now = ground arith
uses-unexpired t u text (some (c ∷ token, e)) now = ground arith

uses-send :
    (t : Text) (tokens : Tokens) (u : String) (text : Option Text) (now : ℕ)
    → kept t ((send tokens u text none now).0) + uses t ((send tokens u text none now).1)
      ≤ kept t tokens
unfolding send
uses-send t tokens u text now =
    let left = kept-remove t tokens u in
    let used = uses-unexpired t u (or_empty text) (get tokens u) now in omega (arith, left, used)

abbrev offer : Text → Option Text → ℕ
offer t none = 0
offer t (some token) = if text_beq token t then 1 else 0

kept-store_token :
    (t : Text) (tokens : Tokens) (u : String) (o : Option Text) (now : ℕ)
    → kept t (store_token false tokens u o now) ≤ kept t tokens + offer t o
kept-store_token t tokens u none now = omega arith
kept-store_token t tokens u (some []) now = ground arith
kept-store_token t tokens u (some (c ∷ s)) now = kept-put t tokens u (c ∷ s) (now + 60 * sec)

-- The payloads of the replies in a run.
module _ (world : Security) (config : Config) where
  abbrev pub run : Tokens → List Step → List Payload
  run tokens [] = []
  run tokens (hears event now ∷ steps) =
      run ((on_message world config false tokens event now).0) steps
  run tokens (says user text now ∷ steps) =
      let (tokens', payload) = send tokens user text none now in payload ∷ run tokens' steps

  abbrev pub replies : Text → List Payload → ℕ
  replies t [] = 0
  replies t (p ∷ ps) = uses t p + replies t ps

  abbrev pub offers : Text → List Step → ℕ
  offers t [] = 0
  offers t (hears event now ∷ steps) = offer t event.reply_token + offers t steps
  offers t (says user text now ∷ steps) = offers t steps

  run_uses :
      (t : Text) (tokens : Tokens) (steps : List Step)
      → replies t (run tokens steps) ≤ kept t tokens + offers t steps
  unfolding on_message
  run_uses t tokens [] = omega arith
  run_uses t tokens (hears event now ∷ steps) =
      let rest = run_uses t (store_token false tokens event.user_id event.reply_token now) steps in
      let stored = kept-store_token t tokens event.user_id event.reply_token now in
      omega (arith, rest, stored)
  run_uses t tokens (says user text now ∷ steps) =
      let rest = run_uses t ((send tokens user text none now).0) steps in
      let sent = uses-send t tokens user text now in omega (arith, rest, sent)

  -- In any sequence of events and replies of a LINE adapter whose transport keeps no tokens, a reply
  -- token is used by at most as many replies as there were events that brought it.
  pub tokens_once : (t : Text) (steps : List Step) → replies t (run [] steps) ≤ offers t steps
  tokens_once t steps = omega (arith, run_uses t [] steps)
