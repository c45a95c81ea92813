-- ===== src/Policy/Engine.antt =====
-- `PolicyEngine` of glc/policy/engine.py: loading, `evaluate` and `reload`.
use gateway_glc_v.Common.{
  ℕ, suc, Bool, true, false, not, ◌||◌, List, [], ◌∷◌, Option, none, some, if◌then◌else◌, Result,
  ok, ◌>>=◌,
}
use gateway_glc_v.Common.Dict.{Dict}
use gateway_glc_v.Common.Text.{Text, codes, text_eq, text_beq}
use gateway_glc_v.Policy.Condition.{
  Expected, Argument, Action, allow, deny, PolicyRule, Raised, Matchers, matches_condition,
}

-- The text of a verdict's reason.
pub data Reason : Type 0 where
  given : Text → Reason
  denied_by_policy : Reason
  matched_rule : ℕ → Reason
  default_allow : Reason
  default_deny : Text → Reason

pub record PolicyVerdict : Type 0 where
  pub action : Action
  pub reason : Reason
  pub matched_rule_index : Option ℕ

-- A tool call and its context, with what the code takes for a key that is absent.
pub record ToolCall : Type 0 where
  pub name : Option Text
  pub arguments : Option (Dict Text Argument)

pub record Context : Type 0 where
  pub channel : Option Text
  pub trust_level : Option Text

pub record Query : Type 0 where
  pub tool : Text
  pub params : Dict Text Argument
  pub channel : Text
  pub trust_level : Text

abbrev text_or : Option Text → Text → Text
text_or none d = d
text_or (some t) d = t

abbrev args_or : Option (Dict Text Argument) → Dict Text Argument
args_or none = []
args_or (some d) = d

abbrev pub query_of : ToolCall → Context → Query
query_of call context = record {
  tool = text_or call.name [];
  params = args_or call.arguments;
  channel = text_or context.channel [];
  trust_level = text_or context.trust_level (codes "untrusted");
}

-- `rule.x != "*" and rule.x != x` is false
abbrev field_matches : Text → Text → Bool
field_matches pattern value = text_beq pattern (codes "*") || text_beq pattern value

abbrev pub is_deny : Action → Bool
is_deny deny = true
is_deny _ = false

-- `if rule.condition and not …`: an empty condition is not looked at
abbrev condition_matches : Matchers → Dict Text Expected → Dict Text Argument → Result Raised Bool
condition_matches m [] params = ok true
condition_matches m (kv ∷ kvs) params = matches_condition m (kv ∷ kvs) params

-- Whether the loop of `evaluate` gets past its `continue` statements.
unfoldable pub rule_matches : Matchers → Query → PolicyRule → Result Raised Bool
rule_matches m q r =
    if not (field_matches r.tool q.tool)
    then ok false
    else if not (field_matches r.channel q.channel)
    then ok false
    else if not (field_matches r.trust_level q.trust_level)
    then ok false
    else condition_matches m r.condition q.params

pub record Found : Type 0 where
  pub deny_match : Option (ℕ × PolicyRule)
  pub first_match : Option (ℕ × PolicyRule)

abbrev pub or_first : Option (ℕ × PolicyRule) → ℕ → PolicyRule → Option (ℕ × PolicyRule)
or_first none i r = some (i, r)
or_first (some x) i r = some x

abbrev pub note : Found → ℕ → PolicyRule → Found
note f i r = record {
  first_match = or_first f.first_match i r;
  deny_match = if is_deny r.action then or_first f.deny_match i r else f.deny_match;
}

unfoldable pub scan : Matchers → Query → List PolicyRule → ℕ → Found → Result Raised Found
scan m q [] i f = ok f
scan m q (r ∷ rules) i f =
    (rule_matches m q r) >>= λ hit. scan m q rules (suc i) (if hit then note f i r else f)

abbrev reason_or : Text → Reason → Reason
reason_or [] d = d
reason_or (c ∷ t) d = given (c ∷ t)

unfoldable pub conclude : Text → Found → PolicyVerdict
conclude trust f = elim f.deny_match [
  | some (i, r) ↦ record {
    action = deny;
    reason = reason_or r.reason denied_by_policy;
    matched_rule_index = some i;
  }
  | none ↦ elim f.first_match [
    | some (i, r) ↦ record {
      action = r.action;
      reason = reason_or r.reason (matched_rule i);
      matched_rule_index = some i;
    }
    | none ↦
        if text_beq trust (codes "owner_paired")
        then record { action = allow; reason = default_allow; matched_rule_index = none }
        else record { action = deny; reason = default_deny trust; matched_rule_index = none }
  ]
]

abbrev pub nothing : Found
nothing = record { deny_match = none; first_match = none }

-- `PolicyEngine(config)` is its configuration: the list of rules.
pub record PolicyEngine : Type 0 where
  pub rules : List PolicyRule

unfoldable pub evaluate : Matchers → PolicyEngine → ToolCall → Context → Result Raised PolicyVerdict
evaluate m engine call context =
    let q = query_of call context in
    do f ← scan m q engine.rules 0 nothing; ok (conclude q.trust_level f)

-- `_SAFE_DEFAULT`
abbrev pub safe_default : List PolicyRule
safe_default =
    (record {
      tool = codes "*";
      channel = codes "*";
      trust_level = codes "*";
      condition = [];
      action = deny;
      reason = codes "policy.yaml unreadable — falling back to deny-everything";
    })
    ∷ []

-- The file of a path: not there, refused by the parser or the schema, or a list of rules.
pub data PolicyFile : Type 0 where
  missing : PolicyFile
  malformed : PolicyFile
  parsed : List PolicyRule → PolicyFile

unfoldable pub from_yaml : PolicyFile → PolicyEngine
from_yaml missing = record { rules = safe_default }
from_yaml malformed = record { rules = safe_default }
from_yaml (parsed rs) = record { rules = rs }

unfoldable pub reload : PolicyEngine → PolicyFile → PolicyEngine
unfolding from_yaml
reload engine file = record engine { rules = (from_yaml file).rules }
