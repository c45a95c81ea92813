-- ===== src/Common/Dict.antt =====
-- Python's `dict` and an SQL table with a primary key, as an association list: the first row of a
-- key counts, a write of a known key replaces its row in place, and a new key goes to the end.
use mathlib.Core.Path.{◌≡◌, refl}
use mathlib.Core.Option.{Option, none, some}
use mathlib.Core.List.{List, [], ◌∷◌}
use native.Mathlib.Omega.{arith}
use mathlib.Core.Logic.{inl, inr}
use gateway_glc_v.Common.Tests.{if◌then◌else◌, if_both, Bool-cases}
use gateway_glc_v.Common.Compare.{Eq, ◌==◌}
use gateway_glc_v.Common.Lists.{All}

abbrev pub Dict {ℓ κ} : Type ℓ → Type κ → Type (ℓ ⊔ κ)
Dict K V = List (K × V)

module _ {ℓ κ} {K : Type ℓ} {V : Type κ} ⦃e : Eq K⦄ where
  abbrev pub get : Dict K V → K → Option V
  get [] k = none
  get ((j, v) ∷ d) k = if j == k then some v else get d k

  abbrev pub put : Dict K V → K → V → Dict K V
  put [] k v = (k, v) ∷ []
  put ((j, w) ∷ d) k v = if j == k then (k, v) ∷ d else (j, w) ∷ put d k v

  -- `DELETE FROM ... WHERE key = k`, `pop(k, None)`
  abbrev pub remove : Dict K V → K → Dict K V
  remove [] k = []
  remove ((j, v) ∷ d) k = let rest = remove d k in if j == k then rest else (j, v) ∷ rest

  pub get-put :
      (d : Dict K V) (k j : K) (v : V) → get (put d k v) j ≡ (if k == j then some v else get d j)
  get-put [] k j v = refl
  get-put ((i, w) ∷ d) k j v =
      ground (arith, e.same_iff k j, e.same_iff i k, e.same_iff i j, get-put d k j v)

  pub get-remove :
      (d : Dict K V) (k j : K) → get (remove d k) j ≡ (if k == j then none else get d j)
  get-remove [] k j = ground arith
  get-remove ((i, w) ∷ d) k j =
      ground (arith, e.same_iff k j, e.same_iff i k, e.same_iff i j, get-remove d k j)

-- A primary key: no two rows share one.
abbrev pub DistinctKeys {ℓ κ} : {K : Type ℓ} {V : Type κ} ⦃e : Eq K⦄ → Dict K V → Type κ
DistinctKeys [] = Unit
DistinctKeys ((k, v) ∷ d) = (get d k ≡ none) × DistinctKeys d

module _ {ℓ κ} {K : Type ℓ} {V : Type κ} ⦃e : Eq K⦄ where
  pub put-DistinctKeys : (d : Dict K V) (k : K) (v : V) → DistinctKeys d → DistinctKeys (put d k v)
  put-DistinctKeys [] k v h = (refl, tt)
  put-DistinctKeys ((j, w) ∷ d) k v h =
      ground (arith, e.same_iff j k, e.same_iff k j, get-put d k j v, put-DistinctKeys d k v)

  pub remove-DistinctKeys : (d : Dict K V) (k : K) → DistinctKeys d → DistinctKeys (remove d k)
  remove-DistinctKeys [] k h = tt
  remove-DistinctKeys ((j, w) ∷ d) k h = ground (arith, get-remove d k j, remove-DistinctKeys d k)

-- What holds of every row holds of the row that is found, and stays true when a row is written.
module _ {ℓ κ μ} {K : Type ℓ} {V : Type κ} ⦃e : Eq K⦄ (Holds : K × V → Type μ) where
  pub get-All : (d : Dict K V) (k : K) (v : V) → All Holds d → get d k ≡ some v → Holds (k, v)
  get-All [] k v h found = cc
  get-All ((j, w) ∷ d) k v h found = elim (Bool-cases (j == k)) [
    | inl same ↦
        let w_is : w ≡ v = ground (arith, same, found) in
        let j_is : j ≡ k = (e.same_iff j k).0 same in rw (← j_is, ← w_is) h.0
    | inr differ ↦ get-All d k v h.1 (ground (arith, differ, found))
  ]

  pub put-All : (d : Dict K V) (k : K) (v : V) → All Holds d → Holds (k, v) → All Holds (put d k v)
  put-All [] k v h new = (new, tt)
  put-All ((j, w) ∷ d) k v h new =
      if_both (All Holds) (j == k) _ _ (new, h.1) (h.0, put-All d k v h.1 new)

  pub remove-All : (d : Dict K V) (k : K) → All Holds d → All Holds (remove d k)
  remove-All [] k h = tt
  remove-All ((j, w) ∷ d) k h =
      if_both (All Holds) (j == k) _ _ (remove-All d k h.1) (h.0, remove-All d k h.1)
