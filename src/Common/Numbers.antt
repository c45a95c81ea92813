-- ===== src/Common/Numbers.antt =====
-- `str(n)` and `int(text)`. The digits that `int` takes are those of ASCII.
pub mod RoundTrip
use gateway_glc_v.Common.Tests.{ltb, leb, eqb, if◌then◌else◌}
use gateway_glc_v.Common.Text.{Text, strip}
use Prim.Native.Nat.{ℕ, zero, suc, ◌+◌, ◌-◌, ◌*◌, ◌/◌, ◌%◌}
use mathlib.Core.Bool.{Bool, true, false, ◌&&◌, ◌||◌}
use mathlib.Core.Option.{Option, none, some}
use mathlib.Core.List.{List, [], ◌∷◌}

digits : ℕ → ℕ → Text → Text
digits zero n out = out
digits (suc f) n out =
    let d = b'0' + n % 10 in
    let rest = digits f (n / 10) (d ∷ out) in if eqb (n / 10) 0 then d ∷ out else rest

-- A number has no more digits than its successor: the fuel is enough.
unfoldable pub decimal : ℕ → Text
unfolding digits
decimal n = digits (suc n) n []

pub data ℤ : Type 0 where
  pos : ℕ → ℤ
  negsuc : ℕ → ℤ

-- Digits, with single underscores between them; the flag tells that a digit stands just before.
scan : Bool → ℕ → Text → Option ℕ
scan after n [] = if after then some n else none
scan after n (c ∷ s) =
    let digit = scan true (n * 10 + (c - b'0')) s in
    let under = scan false n s in
    if leb b'0' c && leb c b'9' then digit else if eqb c b'_' && after then under else none

abbrev negate : Option ℕ → Option ℤ
negate none = none
negate (some zero) = some (pos zero)
negate (some (suc n)) = some (negsuc n)

abbrev plain : Option ℕ → Option ℤ
plain none = none
plain (some n) = some (pos n)

signed : Text → Option ℤ
signed [] = none
signed (c ∷ s) =
    let minus = scan false 0 s in
    let whole = scan false 0 (c ∷ s) in
    if eqb c b'-' then negate minus else if eqb c b'+' then plain minus else plain whole

-- `int(text)`; `none` is a ValueError
unfoldable pub parse_int : Text → Option ℤ
unfolding scan signed
parse_int s = signed (strip s)

-- `m < n` for a natural number `n`
abbrev pub int_ltb : ℤ → ℕ → Bool
int_ltb (pos m) n = ltb m n
int_ltb (negsuc m) n = true
