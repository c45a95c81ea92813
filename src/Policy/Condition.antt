-- ===== src/Policy/Condition.antt =====
-- The data of glc/policy/schemas.py, and `_matches_condition` of glc/policy/engine.py.
use mathlib.Core.List.{reverse}
use gateway_glc_v.Common.{
  ℕ, Bool, true, false, not, ◌&&◌, ◌||◌, List, [], ◌∷◌, Option, none, some, if◌then◌else◌, eqb,
  Result, ok, err, ◌>>=◌,
}
use gateway_glc_v.Common.Dict.{Dict, get}
use gateway_glc_v.Common.Text.{Text, codes, text_eq, text_beq, starts_with, after_prefix, has_part}
use gateway_glc_v.Policy.Glob.{matches_glob}

-- A value of a rule's condition that is no list.
pub data Atom : Type 0 where
  null : Atom
  text : Text → Atom
  number : ℕ → Atom
  flag : Bool → Atom

pub data Expected : Type 0 where
  one : Atom → Expected
  many : List Atom → Expected

-- An argument of a tool call; a mapping, or a list that holds a list or a mapping, is `other`, and
-- equals no atom and no list of atoms.
pub data Argument : Type 0 where
  atom : Atom → Argument
  list : List Atom → Argument
  other : Argument

pub data Action : Type 0 where
  allow deny require_approval : Action

pub record PolicyRule : Type 0 where
  pub tool : Text
  pub channel : Text
  pub trust_level : Text
  pub condition : Dict Text Expected
  pub action : Action
  pub reason : Text

-- The `TypeError` of a condition of the wrong type, and the `re.error` of a pattern that is none.
pub data Raised : Type 0 where
  bad_operand bad_pattern : Raised

-- `==` of Python, where `True` is 1 and `False` is 0.
abbrev flag_number : Bool → ℕ
flag_number true = 1
flag_number false = 0

abbrev bool_beq : Bool → Bool → Bool
bool_beq true b = b
bool_beq false b = not b

abbrev pub same_atom : Atom → Atom → Bool
same_atom null null = true
same_atom (text s) (text t) = text_beq s t
same_atom (number m) (number n) = eqb m n
same_atom (flag a) (flag b) = bool_beq a b
same_atom (number m) (flag b) = eqb m (flag_number b)
same_atom (flag a) (number n) = eqb (flag_number a) n
same_atom _ _ = false

abbrev pub equals : Argument → Atom → Bool
equals (atom a) b = same_atom a b
equals _ b = false

same_atoms : List Atom → List Atom → Bool
same_atoms [] [] = true
same_atoms (a ∷ xs) (b ∷ bs) = same_atom a b && same_atoms xs bs
same_atoms _ _ = false

abbrev pub member : Argument → List Atom → Bool
member a [] = false
member a (b ∷ bs) = equals a b || member a bs

-- `params.get(key)`
abbrev or_null : Option Argument → Argument
or_null none = atom null
or_null (some a) = a

abbrev arg : Dict Text Argument → Text → Argument
arg params key = or_null (get params key)

abbrev ends_with : Text → Text → Bool
ends_with s p = starts_with (reverse s) (reverse p)

abbrev drop_end : Text → Text → Text
drop_end s p = reverse (after_prefix (reverse s) (reverse p))

-- `fnmatch.fnmatch(value, pattern)`, and `re.search(pattern, value)`, which may raise `re.error`
pub record Matchers : Type 0 where
  pub fnmatch : Text → Text → Bool
  pub re_search : Text → Text → Option Bool

-- What is asked of a text is false of any other value.
abbrev glob_test : Matchers → Argument → Expected → Result Raised Bool
glob_test m (atom (text v)) (one (text p)) = ok (matches_glob m.fnmatch v p)
glob_test m (atom (text v)) _ = err bad_operand
glob_test m _ _ = ok false

abbrev regex_test : Matchers → Argument → Expected → Result Raised Bool
regex_test m (atom (text v)) (one (text p)) = elim (m.re_search p v) [
  | none ↦ err bad_pattern
  | some found ↦ ok found
]
regex_test m (atom (text v)) _ = err bad_operand
regex_test m _ _ = ok false

-- `x in text` wants a text on the left, and `x in n` is an error.
abbrev in_text : Argument → Text → Result Raised Bool
in_text (atom (text v)) t = ok (has_part t v)
in_text _ t = err bad_operand

abbrev in_number : Argument → ℕ → Result Raised Bool
in_number a ℕ.zero = ok false
in_number a (ℕ.suc n) = err bad_operand

-- `value in (expected or [])`
in_test : Argument → Expected → Result Raised Bool
in_test a (many bs) = ok (member a bs)
in_test a (one null) = ok false
in_test a (one (text [])) = ok false
in_test a (one (text (c ∷ t))) = in_text a (c ∷ t)
in_test a (one (number n)) = in_number a n
in_test a (one (flag b)) = in_number a (flag_number b)

-- `any(p in cmd for p in patterns)` stops at the first hit.
any_part : Text → List Atom → Result Raised Bool
any_part cmd [] = ok false
any_part cmd (text p ∷ ps) = let rest = any_part cmd ps in if has_part cmd p then ok true else rest
any_part cmd (_ ∷ ps) = err bad_operand

abbrev patterns : Expected → List Atom
patterns (many ps) = ps
patterns (one p) = p ∷ []

-- an absent command is the empty text
command_test : Option Argument → Expected → Result Raised Bool
command_test none e = any_part [] (patterns e)
command_test (some (atom (text cmd))) e = any_part cmd (patterns e)
command_test (some _) e = ok false

abbrev plain_test : Argument → Expected → Result Raised Bool
plain_test a (many bs) = ok (member a bs)
plain_test a (one b) = ok (equals a b)

-- `==`, also of two lists
recipient_test : Argument → Expected → Result Raised Bool
unfolding same_atoms
recipient_test (list xs) (many bs) = ok (same_atoms xs bs)
recipient_test a (many bs) = ok false
recipient_test a (one b) = ok (equals a b)

-- One turn of the loop: whether the key's test passes.
unfoldable pub key_test : Matchers → Text → Expected → Dict Text Argument → Result Raised Bool
unfolding in_test any_part command_test recipient_test
key_test m key expected params =
    if ends_with key (codes "_glob")
    then glob_test m (arg params (drop_end key (codes "_glob"))) expected
    else if ends_with key (codes "_regex")
    then regex_test m (arg params (drop_end key (codes "_regex"))) expected
    else if ends_with key (codes "_in")
    then in_test (arg params (drop_end key (codes "_in"))) expected
    else if text_beq key (codes "command_matches")
    then command_test (get params (codes "command")) expected
    else if text_beq key (codes "recipient_type")
    then recipient_test (arg params (codes "recipient_type")) expected
    else plain_test (arg params key) expected

abbrev unless_false : Bool → Result Raised Bool → Result Raised Bool
unless_false true rest = rest
unless_false false rest = ok false

unfoldable pub matches_condition :
    Matchers → Dict Text Expected → Dict Text Argument → Result Raised Bool
matches_condition m [] params = ok true
matches_condition m ((key, expected) ∷ condition) params =
    let rest = matches_condition m condition params in
    (key_test m key expected params) >>= λ passes. unless_false passes rest
