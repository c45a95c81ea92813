-- ===== src/Common/Outcome.antt =====
-- Python functions that may raise: the value, or what was raised.
use mathlib.Core.Path.{◌≡◌, refl}
use mathlib.Core.Bool.{Bool, true, false}

pub data Result {ε α} (Raised : Type ε) (A : Type α) : Type (ε ⊔ α) where
  ok : A → Result Raised A
  err : Raised → Result Raised A

-- `if not test: raise what`
abbrev pub guard {ε} : {Raised : Type ε} → Bool → Raised → Result Raised (Unit {0})
guard test what = elim test [ true ↦ ok tt | false ↦ err what ]

module _ {ε α β} {Raised : Type ε} {A : Type α} {B : Type β} where
  infixl 5 ◌>>=◌
  abbrev pub ◌>>=◌ : Result Raised A → (A → Result Raised B) → Result Raised B
  ◌>>=◌ (err what) rest = err what
  ◌>>=◌ (ok a) rest = rest a

-- The same for a step that gives nothing.
infixl 5 ◌>>◌
abbrev pub ◌>>◌ {ε β} :
    {Raised : Type ε} {B : Type β} → Result Raised (Unit {0}) → Result Raised B → Result Raised B
◌>>◌ first later = first >>= λ _. later

-- A chain that returns has returned at each of its steps.
module _ {ε α β} {Raised : Type ε} {A : Type α} {B : Type β} where
  pub >>=-eq-ok :
      (first : Result Raised A) (rest : A → Result Raised B) {last : B}
      (h : (first >>= rest) ≡ ok last)
      → (mid : A) × (first ≡ ok mid) × (rest mid ≡ ok last)
  >>=-eq-ok (err what) rest h = cc
  >>=-eq-ok (ok mid) rest h = (mid, refl, h)

pub guard-eq-ok {ε β} :
    {Raised : Type ε} {B : Type β} (test : Bool) (what : Raised) (rest : Result Raised B) {last : B}
    → (guard test what >> rest) ≡ ok last
    → (test ≡ true) × (rest ≡ ok last)
guard-eq-ok false what rest h = cc
guard-eq-ok true what rest h = (refl, h)

pub ok-injective {ε α} :
    {Raised : Type ε} {A : Type α} {a b : A} → ◌≡◌ {A = Result Raised A} (ok a) (ok b) → a ≡ b
ok-injective h = cc
