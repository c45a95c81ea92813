-- ===== src/Providers/Schema/Total.antt =====
-- The fuel of the walk of `_gemini_inline_refs` of glc/providers.py.
use gateway_glc_v.Common.{
  ℕ, zero, suc, ◌+◌, ◌≤◌, ◌<◌, ◌≡◌, ◌≢◌, inl, inr, refl, Bool, true, false, ◌||◌, List, [], ◌∷◌,
  Option, none, some, if◌then◌else◌, contains, Result, ok, err, ◌>>=◌, arith, Bool-cases,
  Option-cases, ok-injective,
}
use gateway_glc_v.Common.Text.{Text, text_beq, text_beq_iff, text_eq}
use gateway_glc_v.Providers.Schema.{
  Json, null, bool, number, text, array, object, Items, no_item, item, Fields, no_field, field,
  field_at, WalkError, not_a_text, out_of_fuel, ref_key, name_of, usable, usable_name, target_of,
  combined, follow, walk_node, walk_items, walk_fields, walk, defs_of, count, inline_refs, stripped,
  clean_schema,
}

abbrev starved {ℓ} : {A : Type ℓ} → Result WalkError A → Bool
starved (ok a) = false
starved (err not_a_text) = false
starved (err out_of_fuel) = true

starved->>= {ℓ κ} :
    {A : Type ℓ} {B : Type κ} (r : Result WalkError A) (f : A → Result WalkError B)
    → starved r ≡ false
    → ((a : A) → r ≡ ok a → starved (f a) ≡ false)
    → starved (r >>= f) ≡ false
starved->>= (ok a) f h g = g a refl
starved->>= (err not_a_text) f h g = refl
starved->>= (err out_of_fuel) f h g = cc

-- How many definitions a path has not followed.
abbrev unseen : Fields → List Text → ℕ
unseen no_field seen = 0
unseen (field k v rest) seen = (if contains seen k then 0 else 1) + unseen rest seen

unseen_le :
    (defs : Fields) (seen : List Text) (name : Text) → unseen defs (name ∷ seen) ≤ unseen defs seen
unseen_le no_field seen name = omega arith
unseen_le (field k v rest) seen name = ground (arith, unseen_le rest seen name)

unseen_lt :
    (defs : Fields) (seen : List Text) (name : Text) (d : Json)
    → field_at defs name ≡ some d
    → contains seen name ≡ false
    → unseen defs (name ∷ seen) < unseen defs seen
unseen_lt no_field seen name d h new = cc
unseen_lt (field k v rest) seen name d h new = elim (Bool-cases (text_beq k name)) [
  | inl same ↦
      let k_is : k ≡ name = (text_beq_iff k name).0 same in
      let new_k : contains seen k ≡ false = rw (k_is) new in
      let less = unseen_le rest seen name in rw (same, new_k) (omega (arith, less))
  | inr other ↦
      let less = unseen_lt rest seen name d (rw (other) at h) new in
      let le = unseen_le rest seen name in rw (other) (omega (arith, less))
]

unseen-count : (defs : Fields) → unseen defs [] ≡ count defs
unseen-count no_field = refl
unseen-count (field k v rest) = omega (arith, unseen-count rest)

-- A target is a definition that the path has not followed.
IsTarget : Fields → List Text → Option (Text × Json) → Type 0
IsTarget defs seen none = Unit
IsTarget defs seen (some (name, d)) = (field_at defs name ≡ some d) × (contains seen name ≡ false)

usable-IsTarget :
    (defs : Fields) (seen : List Text) (o : Option Text)
    → IsTarget defs seen (usable_name defs seen o)
unfolding IsTarget
usable-IsTarget defs seen none = tt
usable-IsTarget defs seen (some name) = elim (Option-cases (field_at defs name)) [
  | inl missing ↦ rw (missing, usable_name) tt
  | inr (d, found) ↦ (elim (Bool-cases (text_beq name [] || contains seen name)) [
    | inl bad ↦ rw (found, usable_name) (rw (bad, usable) tt)
    | inr good ↦ rw (found, usable_name) (rw (good, usable) (found, ground (arith, good)))
  ])
]

target_of_fine :
    (defs : Fields) (seen : List Text) (o : Option Json) → starved (target_of defs seen o) ≡ false
target_of_fine defs seen none = refl
target_of_fine defs seen (some null) = refl
target_of_fine defs seen (some (bool b)) = refl
target_of_fine defs seen (some (number n)) = refl
target_of_fine defs seen (some (text t)) = refl
target_of_fine defs seen (some (array js)) = refl
target_of_fine defs seen (some (object fs)) = refl

target_of-IsTarget :
    (defs : Fields) (seen : List Text) (o : Option Json) (target : Option (Text × Json))
    → target_of defs seen o ≡ ok target
    → IsTarget defs seen target
unfolding IsTarget
target_of-IsTarget defs seen none target h = rw (← (ok-injective h)) tt
target_of-IsTarget defs seen (some null) target h = cc
target_of-IsTarget defs seen (some (bool b)) target h = cc
target_of-IsTarget defs seen (some (number n)) target h = cc
target_of-IsTarget defs seen (some (text t)) target h =
    rw (← (ok-injective h)) (usable-IsTarget defs seen (name_of t))
target_of-IsTarget defs seen (some (array js)) target h = cc
target_of-IsTarget defs seen (some (object fs)) target h = cc

-- A walk ends if the walks of the definitions that the path has not followed end.
module _ (deeper : List Text → Json → Result WalkError Json) (defs : Fields) (seen : List Text)
    (ends : (name : Text) (d : Json)
      → field_at defs name ≡ some d
      → contains seen name ≡ false
      → starved (deeper (name ∷ seen) d) ≡ false) where
  follow_fine :
      (target : Option (Text × Json))
      → IsTarget defs seen target
      → starved (follow deeper defs seen target) ≡ false
  unfolding IsTarget
  follow_fine none h = refl
  follow_fine (some (name, d)) (found, new) =
      starved->>= (deeper (name ∷ seen) d) (λ j. ok (some j)) (ends name d found new) (λ j e. refl)

  mutual
    unfolding walk_node

    walk_node_fine : (j : Json) → starved (walk_node deeper defs seen j) ≡ false
    walk_node_fine null = refl
    walk_node_fine (bool b) = refl
    walk_node_fine (number n) = refl
    walk_node_fine (text t) = refl
    walk_node_fine (array js) =
        starved->>= (walk_items deeper defs seen js) (λ js'. ok (array js')) (walk_items_fine js)
          (λ js' e. refl)
    walk_node_fine (object fs) =
        let fields_fine = walk_fields_fine fs in
        starved->>= (target_of defs seen (field_at fs ref_key))
          (λ target. (follow deeper defs seen target) >>= λ resolved.
            (walk_fields deeper defs seen fs) >>= λ extras. ok (combined resolved extras))
          (target_of_fine defs seen (field_at fs ref_key))
          (λ target found.
            starved->>= (follow deeper defs seen target)
              (λ resolved.
                (walk_fields deeper defs seen fs) >>= λ extras. ok (combined resolved extras))
              (follow_fine target (target_of-IsTarget defs seen (field_at fs ref_key) target found))
              (λ resolved e.
                starved->>= (walk_fields deeper defs seen fs)
                  (λ extras. ok (combined resolved extras)) fields_fine (λ extras e'. refl)))

    walk_items_fine : (js : Items) → starved (walk_items deeper defs seen js) ≡ false
    walk_items_fine no_item = refl
    walk_items_fine (item j js) =
        let more = walk_items_fine js in
        starved->>= (walk_node deeper defs seen j)
          (λ j'. (walk_items deeper defs seen js) >>= λ js'. ok (item j' js')) (walk_node_fine j)
          (λ j' e.
            starved->>= (walk_items deeper defs seen js) (λ js'. ok (item j' js')) more
              (λ js' e'. refl))

    walk_fields_fine : (fs : Fields) → starved (walk_fields deeper defs seen fs) ≡ false
    walk_fields_fine no_field = refl
    walk_fields_fine (field k v rest) =
        let more = walk_fields_fine rest in
        let here = walk_node_fine v in
        elim (Bool-cases (text_beq k ref_key)) [
          | inl ref ↦ rw (ref) more
          | inr plain ↦ rw (plain) (
              starved->>= (walk_node deeper defs seen v)
                (λ v'. (walk_fields deeper defs seen rest) >>= λ rest'. ok (field k v' rest')) here
                (λ v' e.
                  starved->>= (walk_fields deeper defs seen rest) (λ rest'. ok (field k v' rest'))
                    more (λ rest' e'. refl)))
        ]

walk_fine :
    (n : ℕ) (defs : Fields) (seen : List Text) (j : Json)
    → unseen defs seen ≤ n
    → starved (walk n defs seen j) ≡ false
unfolding walk
walk_fine zero defs seen j h =
    walk_node_fine (λ names d. err out_of_fuel) defs seen
      (λ name d found new. absurd (omega (arith, h, unseen_lt defs seen name d found new))) j
walk_fine (suc n) defs seen j h =
    walk_node_fine (walk n defs) defs seen
      (λ name d found new.
        let less = unseen_lt defs seen name d found new in
        walk_fine n defs (name ∷ seen) d (omega (arith, h, less)))
      j

-- Cleaning a schema ends, whatever cycles its references make: one unit of fuel for each definition
-- is enough.
pub clean_schema_ends : (fs : Fields) → clean_schema fs ≢ err out_of_fuel
unfolding clean_schema inline_refs
clean_schema_ends fs h =
    let fine =
      starved->>= (inline_refs fs) (λ j. ok (stripped j))
        (walk_fine (count (defs_of fs)) (defs_of fs) [] (object fs)
          (omega (arith, unseen-count (defs_of fs))))
        (λ j e. refl) in
    let both : true ≡ false = rw (h) at fine in cc
