-- ===== src/Embed/Ring.antt =====
-- Who embeds a text.
use gateway_glc_v.Common.{
  ℕ, ◌+◌, ◌≡◌, refl, true, false, List, [], ◌∷◌, ◌++◌, map, Option, none, some, ◌&&◌, arith, keep,
  Result, ok, err, Bool-cases, Option-cases, inl, inr,
}
use gateway_glc_v.Common.Text.{Text}
use gateway_glc_v.Embed.{
  EmbedRateState, States, set, EmbedAttempt, skipped, gave_error, EmbedOutcome, embedded,
  unavailable_429, raised, unknown_embedder, all_unavailable, Embedded, is_wanted, is_explicit,
  is_nil, gc, can_use, refusal, record_success, mark_failure, after_ask, try_embedder, embed_ring,
  embed_with_failover,
}

abbrev pub tried_name : EmbedAttempt → Text
tried_name (skipped name w) = name
tried_name (gave_error name why) = name

-- The readings of the clock so far, and the states, when it is an embedder's turn.
pub record Turn : Type 0 where
  pub reads : ℕ
  pub states : States

is_nil-eq : (es : List Text) → is_nil es ≡ true → es ≡ []
is_nil-eq [] h = refl
is_nil-eq (e ∷ es) h = cc

module _ {Out : Type 0} (clock : ℕ → ℕ) (ask : ℕ → Text → Result Text Out)
    (explicit : Option Text) where
  -- An embedder's own state, swept at its turn.
  abbrev pub swept : Turn → Text → EmbedRateState
  swept t e = gc (t.states e) (clock t.reads)

  -- Its own state allows a request at its turn.
  abbrev pub IsFree : Turn → Text → Type 0
  IsFree t e = refusal (swept t e) (clock (t.reads + 1)) ≡ none

  abbrev pub IsTrue : Turn → EmbedAttempt → Type 0
  IsTrue t (skipped e why) = refusal (swept t e) (clock (t.reads + 1)) ≡ some why
  IsTrue t (gave_error e why) = IsFree t e × (ask (t.reads + 2) e ≡ err why)

  abbrev pub turn_after : Turn → EmbedAttempt → Turn
  turn_after t (skipped e why) = record { reads = t.reads + 2; states = set t.states e (swept t e) }
  turn_after t (gave_error e why) = record {
    reads = t.reads + 2 + 1;
    states = set t.states e (mark_failure (swept t e) why (clock (t.reads + 2)));
  }

  abbrev pub after_all : Turn → List EmbedAttempt → Turn
  after_all t [] = t
  after_all t (a ∷ attempts) = after_all (turn_after t a) attempts

  abbrev pub AllTrue : Turn → List EmbedAttempt → Type 0
  AllTrue t [] = Unit
  AllTrue t (a ∷ attempts) = IsTrue t a × AllTrue (turn_after t a) attempts

  -- The candidate that answers at its turn: those before it were tried, its own state allows a
  -- request, the answer is its own, and its success is recorded.
  pub record Answers (t : Turn) (cs : List Text) (res : Embedded Out) (name : Text) (out : Out)
      : Type 0 where
    pub rest : List Text
    pub in_order : cs ≡ map tried_name res.attempts ++ (name ∷ rest)
    pub free : IsFree t name
    pub answer : ask (t.reads + 2) name ≡ ok out
    pub recorded :
        res.states ≡ set t.states name (record_success (swept t name) (clock (t.reads + 2)))

  -- What the outcome says, `t` being the turn behind those that were tried.
  abbrev pub Ends : Turn → List Text → Embedded Out → EmbedOutcome Out → Type 0
  Ends t cs res (embedded name out) = Answers t cs res name out
  Ends t cs res (unavailable_429 name w) =
      (is_explicit explicit ≡ true)
      × (res.attempts ≡ skipped name w ∷ [])
      × (res.states ≡ t.states)
      × (rest : List Text) × (cs ≡ name ∷ rest)
  Ends t cs res (raised name why) =
      (is_explicit explicit ≡ true)
      × (res.attempts ≡ gave_error name why ∷ [])
      × (res.states ≡ t.states)
      × (rest : List Text) × (cs ≡ name ∷ rest)
  Ends t cs res unknown_embedder =
      (is_explicit explicit ≡ true) × (cs ≡ []) × (res.states ≡ t.states)
  Ends t cs res all_unavailable = (cs ≡ map tried_name res.attempts) × (res.states ≡ t.states)

  abbrev pub Fits : Turn → List Text → Embedded Out → Type 0
  Fits t cs res = Ends (after_all t res.attempts) cs res res.outcome × AllTrue t res.attempts

  pass-Ends :
      (t : Turn) (e : Text) (cs : List Text) (a : EmbedAttempt) (states : States)
      (attempts : List EmbedAttempt) (shown o : EmbedOutcome Out)
      → tried_name a ≡ e
      → is_explicit explicit ≡ false
      → Ends t cs (record { states = states; attempts = attempts; outcome = shown }) o
      → Ends t (e ∷ cs) (record { states = states; attempts = a ∷ attempts; outcome = shown }) o
  pass-Ends t e cs a states attempts shown (embedded name out) own unnamed h = record {
    rest = h.rest;
    in_order = (let k = h.in_order in cc (own, k));
    free = h.free;
    answer = h.answer;
    recorded = h.recorded;
  }
  pass-Ends t e cs a states attempts shown (unavailable_429 name w) own unnamed h =
      let named = h.0 in cc (named, unnamed)
  pass-Ends t e cs a states attempts shown (raised name why) own unnamed h =
      let named = h.0 in cc (named, unnamed)
  pass-Ends t e cs a states attempts shown unknown_embedder own unnamed h =
      let named = h.0 in cc (named, unnamed)
  pass-Ends t e cs a states attempts shown all_unavailable own unnamed h =
      let all = h.0 in (cc (own, all), h.1)

  pass-Fits :
      (t : Turn) (e : Text) (cs : List Text) (a : EmbedAttempt) (res : Embedded Out)
      → tried_name a ≡ e
      → is_explicit explicit ≡ false
      → IsTrue t a
      → Fits (turn_after t a) cs res
      → Fits t (e ∷ cs) (record res { attempts = a ∷ res.attempts })
  pass-Fits t e cs a res own unnamed it h = (
    pass-Ends (after_all (turn_after t a) res.attempts) e cs a res.states res.attempts res.outcome
        res.outcome own unnamed h.0,
    (it, h.1),
  )

  ask-Fits :
      (t : Turn) (e : Text) (cs : List Text) (x : Result Text Out)
      (next : ℕ → States → Embedded Out)
      → ask (t.reads + 2) e ≡ x
      → IsFree t e
      → ((n : ℕ) (states : States)
          → Fits (record { reads = n; states = states }) cs (next n states))
      → Fits t (e ∷ cs) (after_ask clock ask explicit e (swept t e) t.states (t.reads + 2) x next)
  ask-Fits t e cs (ok out) next hx free k =
      (record { rest = cs; in_order = refl; free = free; answer = hx; recorded = refl }, tt)
  ask-Fits t e cs (err why) next hx free k = elim (Bool-cases (is_explicit explicit)) [
    | inl named ↦ rw named ((named, refl, refl, cs, refl), ((free, hx), tt))
    | inr unnamed ↦
        let after = turn_after t (gave_error e why) in
        rw unnamed (
          pass-Fits t e cs (gave_error e why) (next after.reads after.states) refl unnamed
            (free, hx) (k after.reads after.states))
  ]

  try-Fits :
      (t : Turn) (e : Text) (cs : List Text) (next : ℕ → States → Embedded Out)
      → ((n : ℕ) (states : States)
          → Fits (record { reads = n; states = states }) cs (next n states))
      → Fits t (e ∷ cs) (
          try_embedder clock ask explicit e
            (can_use (t.states e) (clock t.reads) (clock (t.reads + 1)))
            t.states
            (t.reads + 2)
            next)
  unfolding can_use
  try-Fits t e cs next k = elim (Option-cases (refusal (swept t e) (clock (t.reads + 1)))) [
    | inl free ↦ rw free (ask-Fits t e cs (ask (t.reads + 2) e) next refl free k)
    | inr (why, waits) ↦ elim (Bool-cases (is_explicit explicit)) [
      | inl named ↦ rw (waits, named) ((named, refl, refl, cs, refl), (waits, tt))
      | inr unnamed ↦
          let after = turn_after t (skipped e why) in
          rw (waits, unnamed)
            (pass-Fits t e cs (skipped e why) (next after.reads after.states) refl unnamed waits
              (k after.reads after.states))
    ]
  ]

  ring-Fits :
      (es : List Text) (n : ℕ) (states : States)
      → Fits (record { reads = n; states = states }) es (embed_ring clock ask explicit es n states)
  unfolding embed_ring
  ring-Fits [] n states = ((refl, refl), tt)
  ring-Fits (e ∷ es) n states =
      try-Fits (record { reads = n; states = states }) e es
        (λ n' states'. embed_ring clock ask explicit es n' states')
        (λ n' states'. ring-Fits es n' states')

  -- The candidates are all the embedders, or those of the name that the request states, if it is not
  -- empty. If a text is embedded, that is by the first candidate whose own state allows a request at
  -- its turn and that answers: the answer is its own, its success is recorded, and each candidate
  -- before it was refused by its own state at its turn, or was asked and gave the error that is
  -- stated. If all are unavailable, every candidate was so tried. Only a request that names its
  -- embedder ends with the refusal or the error of one, which is its first candidate, the only one
  -- tried, or as unknown, and then it has no candidate. The states behind the request are those that
  -- these steps leave.
  pub embed-Fits :
      (embedders : List Text) (n : ℕ) (states : States)
      → Fits
          (record { reads = n; states = states })
          (keep (is_wanted explicit) embedders)
          (embed_with_failover clock ask explicit embedders n states)
  unfolding embed_with_failover
  embed-Fits embedders n states =
      let cs = keep (is_wanted explicit) embedders in
      elim (Bool-cases (is_explicit explicit && is_nil cs)) [
        | inl b ↦ rw b ((ground (arith, b), is_nil-eq cs (ground (arith, b)), refl), tt)
        | inr b ↦ rw b (ring-Fits cs n states)
      ]
