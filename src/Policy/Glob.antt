-- ===== src/Policy/Glob.antt =====
-- `_matches_glob` of glc/policy/engine.py. A pattern with `**` becomes a regular expression of four
-- kinds of pieces, whose matching is written out here; `fnmatch.fnmatch` is an argument.
use gateway_glc_v.Common.{
  ℕ, ◌≡◌, refl, Bool, true, false, not, ◌&&◌, ◌||◌, List, [], ◌∷◌, ◌++◌, if◌then◌else◌, eqb, arith,
}
use gateway_glc_v.Common.Text.{Text, codes, has_part}

-- What `re.escape(pattern)` and the two replacements leave: `.*`, `[^/]*` or an escaped character.
pub data Piece : Type 0 where
  deep : Piece
  shallow : Piece
  char : ℕ → Piece

-- `replace` goes from left to right, so of three stars the first two are one piece.
unfoldable pub pieces : Text → List Piece
pieces [] = []
pieces (c ∷ []) = if eqb c b'*' then shallow ∷ [] else char c ∷ []
pieces (c ∷ d ∷ p) =
    let two = pieces p in
    let one = pieces (d ∷ p) in
    if eqb c b'*' && eqb d b'*'
    then deep ∷ two
    else if eqb c b'*'
    then shallow ∷ one
    else char c ∷ one

-- `$` matches at the end, and before a newline that ends the text.
abbrev at_end : Text → Bool
at_end [] = true
at_end (c ∷ []) = eqb c 10
at_end (_ ∷ _ ∷ _) = false

-- A starred piece, with `rest` for what follows it: none of the text, or one more character.
starred : (ℕ → Bool) → (Text → Bool) → Text → Bool
starred ok rest [] = rest []
starred ok rest (c ∷ s) = rest (c ∷ s) || (ok c && starred ok rest s)

abbrev one_char : ℕ → (Text → Bool) → Text → Bool
one_char d rest [] = false
one_char d rest (c ∷ s) = eqb c d && rest s

abbrev not_newline : ℕ → Bool
not_newline c = not (eqb c 10)

abbrev not_slash : ℕ → Bool
not_slash c = not (eqb c b'/')

-- `re.match(regex + "$", value)`
unfoldable pub match_pieces : List Piece → Text → Bool
unfolding starred
match_pieces [] s = at_end s
match_pieces (deep ∷ ps) s = starred not_newline (match_pieces ps) s
match_pieces (shallow ∷ ps) s = starred not_slash (match_pieces ps) s
match_pieces (char d ∷ ps) s = one_char d (match_pieces ps) s

unfoldable pub matches_glob : (Text → Text → Bool) → Text → Text → Bool
unfolding pieces match_pieces
matches_glob fnmatch value pattern =
    if has_part pattern (codes "**")
    then match_pieces (pieces pattern) value
    else fnmatch value pattern

-- A line, or a line and the newline that ends it.
abbrev pub one_line : Text → Bool
one_line [] = true
one_line (c ∷ []) = true
one_line (c ∷ d ∷ s) = not (eqb c 10) && one_line (d ∷ s)

deep-end : (s : Text) → match_pieces (deep ∷ []) s ≡ one_line s
unfolding match_pieces
deep-end [] = refl
deep-end (c ∷ []) = ground arith
deep-end (c ∷ d ∷ s) = ground (arith, deep-end (d ∷ s))

-- The glob that ends in `**` of the packaged rule on file deletes takes a path below the directory
-- exactly if it has no newline but a last one.
pub documents_glob :
    (fnmatch : Text → Text → Bool) (s : Text)
    → matches_glob fnmatch (codes "~/Documents/" ++ s) (codes "~/Documents/**") ≡ one_line s
unfolding matches_glob
documents_glob fnmatch s = deep-end s
