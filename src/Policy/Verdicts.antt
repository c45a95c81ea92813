-- ===== src/Policy/Verdicts.antt =====
-- What a verdict says of the rules.
use gateway_glc_v.Common.{
  ℕ, suc, ◌≡◌, ◌∙◌, ap, refl, Bool, true, false, ◌||◌, List, [], ◌∷◌, Option, none, some,
  if◌then◌else◌, Result, ok, err, ◌>>=◌, arith, ◌⊎◌,
}
use gateway_glc_v.Common.Text.{Text, codes, text_beq}
use gateway_glc_v.Policy.Condition.{Action, allow, deny, PolicyRule, Raised, Matchers}
use gateway_glc_v.Policy.Engine.{
  Query, Context, ToolCall, query_of, PolicyEngine, PolicyVerdict, Found, nothing, rule_matches,
  scan, note, conclude, evaluate, is_deny, PolicyFile, parsed, missing, malformed, reload,
}

-- The actions of the rules that match, in the order of the rules.
unfoldable pub matched : Matchers → Query → List PolicyRule → Result Raised (List Action)
matched m q [] = ok []
matched m q (r ∷ rules) = (rule_matches m q r) >>= λ hit.
    (matched m q rules) >>= λ rest. ok (if hit then r.action ∷ rest else rest)

abbrev any_deny : List Action → Bool
any_deny [] = false
any_deny (a ∷ acts) = is_deny a || any_deny acts

abbrev first_or : List Action → Action → Action
first_or [] d = d
first_or (a ∷ acts) d = a

-- A deny among them wins, else the first of them, else the default of the trust level.
abbrev pub decide : Text → List Action → Action
decide trust acts =
    if any_deny acts
    then deny
    else first_or acts (if text_beq trust (codes "owner_paired") then allow else deny)

abbrev pub action_of : Result Raised PolicyVerdict → Result Raised Action
action_of (ok v) = ok v.action
action_of (err e) = err e

abbrev started : Option (ℕ × PolicyRule) → List Action
started none = []
started (some (i, r)) = r.action ∷ []

-- What the loop has noted, acts actions: those of the matches so far decide alike.
abbrev decide_from : Text → Found → List Action → Action
decide_from trust f acts = elim f.deny_match [
  | some _ ↦ deny
  | none ↦ elim f.first_match [
    | none ↦ decide trust acts
    | some (i, r) ↦ if any_deny acts then deny else r.action
  ]
]

note-decides :
    (trust : Text) (f : Found) (i : ℕ) (r : PolicyRule) (acts : List Action)
    → decide_from trust (note f i r) acts ≡ decide_from trust f (r.action ∷ acts)
note-decides trust f i r acts = ground arith

abbrev scanned : Text → Result Raised Found → Result Raised Action
scanned trust x = action_of (x >>= λ g. ok (conclude trust g))

abbrev decided : Text → Found → Result Raised (List Action) → Result Raised Action
decided trust f x = x >>= λ acts. ok (decide_from trust f acts)

decided-cons :
    (trust : Text) (f : Found) (i : ℕ) (r : PolicyRule) (x : Result Raised (List Action))
    → decided trust (note f i r) x ≡ decided trust f (x >>= λ rest. ok (r.action ∷ rest))
decided-cons trust f i r (ok acts) = ap ok (note-decides trust f i r acts)
decided-cons trust f i r (err e) = refl

decided-skip :
    (trust : Text) (f : Found) (x : Result Raised (List Action))
    → decided trust f x ≡ decided trust f (x >>= λ rest. ok rest)
decided-skip trust f (ok acts) = refl
decided-skip trust f (err e) = refl

-- One turn of the loop, by what the rule answers.
turn :
    (m : Matchers) (q : Query) (r : PolicyRule) (rs : List PolicyRule) (i : ℕ) (f : Found)
    (x : Result Raised Bool)
    → scanned q.trust_level (scan m q rs (suc i) f) ≡ decided q.trust_level f (matched m q rs)
    → scanned q.trust_level (scan m q rs (suc i) (note f i r))
      ≡ decided q.trust_level (note f i r) (matched m q rs)
    → scanned q.trust_level (x >>= λ hit. scan m q rs (suc i) (if hit then note f i r else f))
      ≡ decided q.trust_level f
          (x >>= λ hit. (matched m q rs) >>= λ rest. ok (if hit then r.action ∷ rest else rest))
turn m q r rs i f (ok true) skip hit = hit ∙ decided-cons q.trust_level f i r (matched m q rs)
turn m q r rs i f (ok false) skip hit = skip ∙ decided-skip q.trust_level f (matched m q rs)
turn m q r rs i f (err e) skip hit = refl

scan-decides :
    (m : Matchers) (q : Query) (rs : List PolicyRule) (i : ℕ) (f : Found)
    → scanned q.trust_level (scan m q rs i f) ≡ decided q.trust_level f (matched m q rs)
unfolding scan matched
scan-decides m q [] i f = unfold conclude in ground arith
scan-decides m q (r ∷ rs) i f =
    turn m q r rs i f (rule_matches m q r) (scan-decides m q rs (suc i) f)
      (scan-decides m q rs (suc i) (note f i r))

-- The action of a verdict is `deny` if any rule that matches denies, else the action of the first
-- rule that matches, else `allow` for `owner_paired` and `deny` for every other trust level; and
-- `evaluate` raises exactly when matching the rules does.
pub evaluate-decides :
    (m : Matchers) (engine : PolicyEngine) (call : ToolCall) (context : Context)
    → action_of (evaluate m engine call context) ≡ (
        (matched m (query_of call context) engine.rules) >>= λ acts.
        ok (decide (query_of call context).trust_level acts))
unfolding evaluate
evaluate-decides m engine call context =
    scan-decides m (query_of call context) engine.rules 0 nothing

-- A file that is missing or malformed leaves an engine that denies every call.
pub unreadable_denies :
    (m : Matchers) (engine : PolicyEngine) (file : PolicyFile) (call : ToolCall) (context : Context)
    → (file ≡ missing) ⊎ (file ≡ malformed)
    → action_of (evaluate m (reload engine file) call context) ≡ ok deny
unfolding evaluate scan reload conclude rule_matches
unreadable_denies m engine missing call context h = refl
unreadable_denies m engine malformed call context h = refl
unreadable_denies m engine (parsed rs) call context h = ground arith

-- A rule that denies wins over any rule above it, whatever that one says.
pub deny_beats_first :
    (m : Matchers) (first later : PolicyRule) (call : ToolCall) (context : Context)
    → rule_matches m (query_of call context) first ≡ ok true
    → rule_matches m (query_of call context) later ≡ ok true
    → first.action ≡ allow
    → later.action ≡ deny
    → action_of (evaluate m (record { rules = first ∷ later ∷ [] }) call context) ≡ ok deny
unfolding matched
deny_beats_first m first later call context hf hl a d =
    evaluate-decides m (record { rules = first ∷ later ∷ [] }) call context ∙ rw (hf, hl, a, d)
