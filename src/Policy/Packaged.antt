-- ===== src/Policy/Packaged.antt =====
-- glc/policy/policy.yaml: the rules that ship with the gateway, and what they decide.
use gateway_glc_v.Common.{
  ◌≡◌, ◌∙◌, refl, Bool, true, false, ◌++◌, [], ◌∷◌, some, if◌then◌else◌, Result, ok, err, ◌>>=◌,
  arith,
}
use gateway_glc_v.Common.Text.{Text, codes, text_eq, text_beq_iff}
use gateway_glc_v.Policy.Glob.{one_line, documents_glob}
use gateway_glc_v.Policy.Condition.{
  text, one, many, atom, allow, deny, require_approval, PolicyRule, Raised, Matchers,
  matches_condition, key_test,
}
use gateway_glc_v.Policy.Engine.{
  Query, ToolCall, Context, query_of, PolicyEngine, rule_matches, evaluate,
}
use gateway_glc_v.Policy.Verdicts.{matched, decide, action_of, evaluate-decides}

abbrev pub external_email : PolicyRule
external_email = record {
  tool = codes "email.send";
  channel = codes "*";
  trust_level = codes "*";
  condition = (codes "recipient_type", one (text (codes "external"))) ∷ [];
  action = require_approval;
  reason = codes "external email recipient requires owner approval";
}

abbrev pub documents_delete : PolicyRule
documents_delete = record {
  tool = codes "file.delete";
  channel = codes "*";
  trust_level = codes "*";
  condition = (codes "path_glob", one (text (codes "~/Documents/**"))) ∷ [];
  action = deny;
  reason = codes "file deletes under ~/Documents are not permitted";
}

abbrev pub calendar_delete : PolicyRule
calendar_delete = record {
  tool = codes "calendar.delete";
  channel = codes "*";
  trust_level = codes "*";
  condition = [];
  action = require_approval;
  reason = codes "calendar deletions require owner approval";
}

abbrev pub shell_commands : PolicyRule
shell_commands = record {
  tool = codes "shell.exec";
  channel = codes "*";
  trust_level = codes "*";
  condition =
      (
        codes "command_matches",
        many (text (codes "sudo") ∷ text (codes "rm -rf") ∷ text (codes "curl | sh") ∷ []),
      )
      ∷ [];
  action = deny;
  reason = codes "command pattern is on the shell deny list";
}

abbrev pub untrusted_sender : PolicyRule
untrusted_sender = record {
  tool = codes "*";
  channel = codes "*";
  trust_level = codes "untrusted";
  condition = [];
  action = deny;
  reason = codes "untrusted sender cannot dispatch any tool";
}

abbrev pub packaged : PolicyEngine
packaged = record {
  rules =
      external_email ∷ documents_delete ∷ calendar_delete ∷ shell_commands ∷ untrusted_sender ∷ [];
}

abbrev is_ok : Result Raised Bool → Bool
is_ok (ok _) = true
is_ok (err _) = false

module _ (m : Matchers) (q : Query) where
  email_total : is_ok (rule_matches m q external_email) ≡ true
  unfolding rule_matches matches_condition key_test
  email_total = ground arith

  documents_total : is_ok (rule_matches m q documents_delete) ≡ true
  unfolding rule_matches matches_condition key_test
  documents_total = ground arith

  calendar_total : is_ok (rule_matches m q calendar_delete) ≡ true
  unfolding rule_matches
  calendar_total = ground arith

  shell_total : is_ok (rule_matches m q shell_commands) ≡ true
  unfolding rule_matches matches_condition key_test
  shell_total = ground arith

  untrusted_matches :
      q.trust_level ≡ codes "untrusted" → rule_matches m q untrusted_sender ≡ ok true
  unfolding rule_matches
  untrusted_matches h = ground (arith, text_beq_iff (codes "untrusted") q.trust_level)

  -- whatever the other rules answer, they answer
  untrusted_decides :
      (a b c d : Result Raised Bool)
      → is_ok a ≡ true
      → is_ok b ≡ true
      → is_ok c ≡ true
      → is_ok d ≡ true
      → rule_matches m q external_email ≡ a
      → rule_matches m q documents_delete ≡ b
      → rule_matches m q calendar_delete ≡ c
      → rule_matches m q shell_commands ≡ d
      → rule_matches m q untrusted_sender ≡ ok true
      → ((matched m q packaged.rules) >>= λ acts. ok (decide q.trust_level acts)) ≡ ok deny
  unfolding matched
  untrusted_decides (ok a) (ok b) (ok c) (ok d) _ _ _ _ ea eb ec ed eu =
      rw (ea, eb, ec, ed, eu) (ground arith)
  untrusted_decides (err _) b c d p _ _ _ _ _ _ _ _ = cc
  untrusted_decides (ok _) (err _) c d _ p _ _ _ _ _ _ _ = cc
  untrusted_decides (ok _) (ok _) (err _) d _ _ p _ _ _ _ _ _ = cc
  untrusted_decides (ok _) (ok _) (ok _) (err _) _ _ _ p _ _ _ _ _ = cc

-- Under the packaged rules every call by an untrusted sender is denied, whatever the tool, its
-- arguments and the channel, and no call by one raises.
pub untrusted_denied :
    (m : Matchers) (call : ToolCall) (context : Context)
    → (query_of call context).trust_level ≡ codes "untrusted"
    → action_of (evaluate m packaged call context) ≡ ok deny
untrusted_denied m call context h =
    let q = query_of call context in
    evaluate-decides m packaged call context
    ∙ untrusted_decides m q _ _ _ _ (email_total m q) (documents_total m q) (calendar_total m q)
        (shell_total m q) refl refl refl refl (untrusted_matches m q h)

abbrev pub delete_file : Text → ToolCall
delete_file path = record {
  name = some (codes "file.delete");
  arguments = some ((codes "path", atom (text path)) ∷ []);
}

abbrev pub owner_on : Text → Context
owner_on channel = record { channel = some channel; trust_level = some (codes "owner_paired") }

-- Under the packaged rules the owner's call to delete a path below ~/Documents is denied exactly if
-- the path has no newline before its last character: with a newline inside it is allowed.
pub documents_delete_exact :
    (m : Matchers) (channel s : Text)
    → action_of (evaluate m packaged (delete_file (codes "~/Documents/" ++ s)) (owner_on channel))
      ≡ ok (if one_line s then deny else allow)
unfolding rule_matches matches_condition key_test matched
documents_delete_exact m channel s =
    evaluate-decides m packaged (delete_file (codes "~/Documents/" ++ s)) (owner_on channel)
    ∙ ground (arith, documents_glob m.fnmatch s)
