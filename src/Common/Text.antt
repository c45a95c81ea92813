-- ===== src/Common/Text.antt =====
-- Python's `str` where the code walks its characters: the list of code points.
use Prim.Native.Char.{code}
use Prim.Native.String.{String}
use Prim.Native.Nat.{ℕ, ◌+◌}
use mathlib.Core.Path.{◌≡◌, refl}
use mathlib.Core.Logic.{◌↔◌}
use mathlib.Core.Bool.{Bool, true, false, ◌&&◌, ◌||◌}
use mathlib.Core.List.{List, [], ◌∷◌, ◌++◌, map, reverse, reverse-cons, reverse-reverse}
use gateway_glc_v.Common.Lists.{All, All-append}
use native.Mathlib.Omega.{arith}
use gateway_glc_v.Common.Tests.{if◌then◌else◌, leb, eqb, eqb_iff}
use gateway_glc_v.Common.Compare.{Eq}

abbrev pub Text : Type 0
Text = List ℕ

abbrev pub codes : String → Text
codes String.[] = []
codes (String.◌∷◌ c s) = code c ∷ codes s

abbrev pub text_beq : Text → Text → Bool
text_beq [] [] = true
text_beq [] (_ ∷ _) = false
text_beq (_ ∷ _) [] = false
text_beq (c ∷ s) (d ∷ t) = eqb c d && text_beq s t

pub text_beq_iff : (s t : Text) → (text_beq s t ≡ true) ↔ (s ≡ t)
text_beq_iff [] [] = ground arith
text_beq_iff [] (d ∷ t) = ground arith
text_beq_iff (c ∷ s) [] = ground arith
text_beq_iff (c ∷ s) (d ∷ t) = ground (arith, text_beq_iff s t, eqb_iff c d)

instance abbrev pub text_eq : Eq Text
text_eq = record { same = text_beq; same_iff = text_beq_iff }

-- `s.startswith(p)`
abbrev pub starts_with : Text → Text → Bool
starts_with s [] = true
starts_with [] (_ ∷ _) = false
starts_with (c ∷ s) (d ∷ p) = eqb c d && starts_with s p

abbrev pub after_prefix : Text → Text → Text
after_prefix s [] = s
after_prefix [] (_ ∷ _) = []
after_prefix (c ∷ s) (d ∷ p) = after_prefix s p

-- `s.removeprefix(p)`
abbrev pub remove_prefix : Text → Text → Text
remove_prefix s p = if starts_with s p then after_prefix s p else s

-- What `str.strip()` removes.
abbrev pub is_space : ℕ → Bool
is_space c =
    (leb 9 c && leb c 13)
    || (leb 28 c && leb c 32)
    || eqb c 133
    || eqb c 160
    || eqb c 5760
    || (leb 8192 c && leb c 8202)
    || eqb c 8232
    || eqb c 8233
    || eqb c 8239
    || eqb c 8287
    || eqb c 12288

unfoldable pub lstrip : Text → Text
lstrip [] = []
lstrip (c ∷ s) = let rest = lstrip s in if is_space c then rest else c ∷ s

unfoldable pub strip : Text → Text
unfolding lstrip
strip s = reverse (lstrip (reverse (lstrip s)))

-- `str.lower()` of an ASCII text.
abbrev pub lower_code : ℕ → ℕ
lower_code c = if leb b'A' c && leb c b'Z' then c + 32 else c

abbrev pub lower : Text → Text
lower = map lower_code

-- `p in s`
abbrev pub has_part : Text → Text → Bool
has_part [] p = starts_with [] p
has_part (c ∷ s) p = starts_with (c ∷ s) p || has_part s p

-- `s.split(sep)` for one character, with the part that is being read.
abbrev pub split_on : ℕ → Text → Text × List Text
split_on sep [] = ([], [])
split_on sep (c ∷ s) =
    let (part, rest) = split_on sep s in if eqb c sep then ([], part ∷ rest) else (c ∷ part, rest)

abbrev pub split : ℕ → Text → List Text
split sep s = let (part, rest) = split_on sep s in part ∷ rest

lstrip_lem : (s : Text) → All (λ c. is_space c ≡ false) s → lstrip s ≡ s
unfolding lstrip
lstrip_lem [] h = refl
lstrip_lem (c ∷ s) h = rw h.0

All-reverse : (P : ℕ → Type 0) (s : Text) → All P s → All P (reverse s)
All-reverse P [] h = tt
All-reverse P (c ∷ s) h =
    rw (reverse-cons c s) (All-append P (reverse s) (c ∷ []) (All-reverse P s h.1) (h.0, tt))

-- A text without white space is stripped of nothing.
pub strip_lem : (s : Text) → All (λ c. is_space c ≡ false) s → strip s ≡ s
unfolding strip
strip_lem s h = rw (lstrip_lem s h, lstrip_lem (reverse s) (All-reverse _ s h)) (reverse-reverse s)

-- `sep.join(parts)`
abbrev pub join : ℕ → List Text → Text
join sep [] = []
join sep (p ∷ []) = p
join sep (p ∷ q ∷ ps) = p ++ (sep ∷ join sep (q ∷ ps))

-- No character of the text is the separator.
abbrev pub Without : ℕ → Text → Type 0
Without sep [] = Unit
Without sep (c ∷ s) = (eqb c sep ≡ false) × Without sep s

pub split-join_cons :
    (sep : ℕ) (p rest : Text) → Without sep p → split sep (p ++ (sep ∷ rest)) ≡ p ∷ split sep rest
split-join_cons sep [] rest h = ground (arith, eqb_iff sep sep)
split-join_cons sep (c ∷ p) rest h = ground (arith, split-join_cons sep p rest)

pub split-Without : (sep : ℕ) (p : Text) → Without sep p → split sep p ≡ p ∷ []
split-Without sep [] h = refl
split-Without sep (c ∷ p) h = ground (arith, split-Without sep p)

join-head :
    (sep c : ℕ) (p : Text) (ps : List Text) → join sep ((c ∷ p) ∷ ps) ≡ c ∷ join sep (p ∷ ps)
join-head sep c p [] = refl
join-head sep c p (q ∷ ps) = refl

-- What was split is joined again.
pub join-split : (sep : ℕ) (s : Text) → join sep (split sep s) ≡ s
join-split sep [] = refl
join-split sep (c ∷ s) =
    ground (
      arith,
      join-split sep s,
      eqb_iff c sep,
      join-head sep c (split_on sep s).0 (split_on sep s).1,
    )
