-- ===== src/Policy/Tests.antt =====
-- The policy engine on concrete calls.
use gateway_glc_v.Common.{
  ◌≡◌, refl, true, false, [], ◌∷◌, none, some, ok, if◌then◌else◌, ◌++◌, ◌>>=◌,
}
use gateway_glc_v.Common.Text.{codes}
use gateway_glc_v.Policy.Glob.{matches_glob, one_line}
use gateway_glc_v.Policy.Condition.{Matchers, Action, allow, deny, PolicyRule}
use gateway_glc_v.Policy.Engine.{ToolCall, Context, evaluate, query_of}
use gateway_glc_v.Policy.Verdicts.{action_of, matched, decide, evaluate-decides}
use gateway_glc_v.Policy.Packaged.{packaged, delete_file, owner_on, documents_delete_exact}

abbrev no_match : Matchers
no_match = record { fnmatch = λ v p. false; re_search = λ p v. some false }

abbrev ping : ToolCall
ping = record { name = some (codes "ping"); arguments = none }

abbrev stranger : Context
stranger = record { channel = some (codes "sms"); trust_level = none }

abbrev any_tool : Action → PolicyRule
any_tool a = record {
  tool = codes "*";
  channel = codes "*";
  trust_level = codes "*";
  condition = [];
  action = a;
  reason = [];
}

-- a star does not cross a slash, and two stars do
globs :
    (matches_glob no_match.fnmatch (codes "/a/b/c.txt") (codes "/**/*.txt") ≡ true)
    × (matches_glob no_match.fnmatch (codes "/a/b/c") (codes "/a/**x") ≡ false)
    × (matches_glob no_match.fnmatch (codes "/a/b") (codes "/*/**") ≡ true)
unfolding matches_glob
globs = (refl, refl, refl)

documents_delete_exact_example :
    action_of (
      evaluate no_match packaged
        (delete_file (codes "~/Documents/" ++ (b'a' ∷ 10 ∷ b'b' ∷ [])))
        (owner_on (codes "webui")))
    ≡ ok (if one_line (b'a' ∷ 10 ∷ b'b' ∷ []) then deny else allow)
documents_delete_exact_example =
    documents_delete_exact no_match (codes "webui") (b'a' ∷ 10 ∷ b'b' ∷ [])

evaluate-decides_example : action_of (evaluate no_match packaged ping stranger) ≡ (
    (matched no_match (query_of ping stranger) packaged.rules) >>= λ acts.
    ok (decide (query_of ping stranger).trust_level acts))
evaluate-decides_example = evaluate-decides no_match packaged ping stranger
