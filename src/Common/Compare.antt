-- ===== src/Common/Compare.antt =====
-- Python's `==` on the values that the gateway compares.
use Prim.Native.Nat.{ℕ}
use Prim.Native.String.{String}
use text.Mathlib.Text.{◌==◌ as str_eq}
use text.Mathlib.TextEquality.{eq_iff}
use mathlib.Core.Path.{◌≡◌, refl}
use mathlib.Core.Logic.{◌↔◌, ◌≢◌}
use mathlib.Core.Bool.{Bool, true, false, ◌&&◌, ◌||◌}
use mathlib.Core.List.{List, [], ◌∷◌}
use native.Mathlib.Omega.{arith}
use gateway_glc_v.Common.Tests.{eqb, eqb_iff}

-- A type whose values Python compares with `==`.
pub record Eq {κ} (K : Type κ) : Type κ where
  pub same : K → K → Bool
  pub same_iff : (j k : K) → (same j k ≡ true) ↔ (j ≡ k)

-- `j == k`, and `k in ks` of a list.
module _ {κ} {K : Type κ} ⦃test : Eq K⦄ where
  infix 50 ◌==◌
  abbrev pub ◌==◌ : K → K → Bool
  j == k = test.same j k

  abbrev pub contains : List K → K → Bool
  contains [] k = false
  contains (j ∷ ks) k = (k == j) || contains ks k

  pub beq_refl : (k : K) → (k == k) ≡ true
  beq_refl k = (test.same_iff k k).1 refl

  pub beq_ne : (j k : K) → j ≢ k → (j == k) ≡ false
  beq_ne j k h = ground (arith, test.same_iff j k)

abbrev pub pair_beq : String × String → String × String → Bool
pair_beq p q = str_eq p.0 q.0 && str_eq p.1 q.1

pub pair_beq_iff : (p q : String × String) → (pair_beq p q ≡ true) ↔ (p ≡ q)
pair_beq_iff p q = ground (arith, eq_iff p.0 q.0, eq_iff p.1 q.1)

-- A pair of strings, the key (channel, user) of several tables.
instance abbrev pub pair_eq : Eq (String × String)
pair_eq = record { same = pair_beq; same_iff = pair_beq_iff }

instance abbrev pub String-eq : Eq String
String-eq = record { same = str_eq; same_iff = eq_iff }

instance abbrev pub ℕ-eq : Eq ℕ
ℕ-eq = record { same = eqb; same_iff = eqb_iff }
