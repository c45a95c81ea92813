-- ===== src/Common/Numbers/RoundTrip.antt =====
-- `int` of what `str` writes.
use Prim.Native.Nat.{ℕ, zero, suc, ◌+◌, ◌/◌, ◌%◌, ◌≤◌, ◌<◌}
use mathlib.Core.Path.{◌≡◌, refl, ◌∙◌}
use mathlib.Core.Bool.{Bool, true, false}
use mathlib.Core.Option.{some}
use mathlib.Core.List.{[], ◌∷◌}
use native.Mathlib.Omega.{arith}
use gateway_glc_v.Common.Lists.{All}
use gateway_glc_v.Common.Text.{Text, is_space, strip_lem}
use gateway_glc_v.Common.Numbers.{digits, decimal, scan, signed, parse_int, pos}

abbrev pub IsDigit : ℕ → Type 0
IsDigit c = (b'0' ≤ c) × (c ≤ b'9')

digits-All : (f n : ℕ) (out : Text) → All IsDigit out → All IsDigit (digits f n out)
unfolding digits
digits-All zero n out h = h
digits-All (suc f) n out h = ground (arith, digits-All f (n / 10) ((b'0' + n % 10) ∷ out))

pub decimal-All : (n : ℕ) → All IsDigit (decimal n)
unfolding decimal
decimal-All n = digits-All (suc n) n [] tt

digits-scan :
    (f n : ℕ) (out : Text) (b : Bool) → n < f → scan b 0 (digits f n out) ≡ scan true n out
unfolding digits scan
digits-scan zero n out b h = elim h [ ]
digits-scan (suc f) n out b h = ground (arith, digits-scan f (n / 10) ((b'0' + n % 10) ∷ out) b)

decimal-scan : (n : ℕ) → scan false 0 (decimal n) ≡ some n
unfolding decimal
decimal-scan n = digits-scan (suc n) n [] false (omega arith) ∙ unfold scan in refl

signed-digits :
    (s : Text) (n : ℕ) → All IsDigit s → scan false 0 s ≡ some n → signed s ≡ some (pos n)
unfolding signed scan
signed-digits [] n h e = cc
signed-digits (c ∷ s) n h e = ground arith

digit_not_space : (c : ℕ) → IsDigit c → is_space c ≡ false
digit_not_space c h = ground arith

digits_no_space : (s : Text) → All IsDigit s → All (λ c. is_space c ≡ false) s
digits_no_space [] h = tt
digits_no_space (c ∷ s) h = (digit_not_space c h.0, digits_no_space s h.1)

-- Every number is read back from its decimal text.
pub parse_int-decimal : (n : ℕ) → parse_int (decimal n) ≡ some (pos n)
unfolding parse_int
parse_int-decimal n =
    rw (strip_lem (decimal n) (digits_no_space (decimal n) (decimal-All n)))
      (signed-digits (decimal n) n (decimal-All n) (decimal-scan n))
