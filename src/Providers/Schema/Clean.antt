-- ===== src/Providers/Schema/Clean.antt =====
-- The keys of a schema that `_gemini_clean_schema` of glc/providers.py has cleaned.
use gateway_glc_v.Common.{
  ℕ, zero, suc, ◌≡◌, inl, inr, refl, Bool, true, not, ◌&&◌, List, [], ◌∷◌, Option, none, some,
  if◌then◌else◌, contains, Result, ok, err, ◌>>=◌, >>=-eq-ok, ok-injective, arith, Bool-cases,
}
use gateway_glc_v.Common.Text.{Text, text_beq, text_eq}
use gateway_glc_v.Providers.Schema.{
  Json, null, bool, number, text, array, object, Items, no_item, item, Fields, no_field, field,
  field_at, set_field, merge, WalkError, out_of_fuel, ref_key, target_of, combined, follow,
  walk_node, walk_items, walk_fields, walk, defs_of, count, inline_refs, drop, strip, strip_items,
  strip_fields, stripped, clean_schema,
}

-- Every key at every depth passes the test.
module _ (p : Text → Bool) where
  unfoldable mutual
    pub all_keys : Json → Bool
    all_keys null = true
    all_keys (bool b) = true
    all_keys (number n) = true
    all_keys (text t) = true
    all_keys (array js) = item_keys js
    all_keys (object fs) = field_keys fs

    pub item_keys : Items → Bool
    item_keys no_item = true
    item_keys (item j js) = all_keys j && item_keys js

    pub field_keys : Fields → Bool
    field_keys no_field = true
    field_keys (field k v rest) = p k && (all_keys v && field_keys rest)

  set_field-keys :
      (fs : Fields) (k : Text) (v : Json)
      → field_keys fs ≡ true
      → p k ≡ true
      → all_keys v ≡ true
      → field_keys (set_field fs k v) ≡ true
  unfolding field_keys
  set_field-keys no_field k v h pk hv = ground (arith, pk, hv)
  set_field-keys (field j w rest) k v h pk hv = ground (arith, h, pk, hv, set_field-keys rest k v)

  merge-keys :
      (base extras : Fields)
      → field_keys base ≡ true
      → field_keys extras ≡ true
      → field_keys (merge base extras) ≡ true
  unfolding field_keys
  merge-keys base no_field h g = h
  merge-keys base (field k v rest) h g =
      merge-keys (set_field base k v) rest
        (set_field-keys base k v h (ground (arith, g)) (ground (arith, g))) (ground (arith, g))

  abbrev GoodOption : Option Json → Type 0
  GoodOption none = Unit
  GoodOption (some j) = all_keys j ≡ true

  combined-keys :
      (resolved : Option Json) (extras : Fields)
      → GoodOption resolved
      → field_keys extras ≡ true
      → all_keys (combined resolved extras) ≡ true
  unfolding all_keys
  combined-keys none extras h g = g
  combined-keys (some null) extras h g = refl
  combined-keys (some (bool b)) extras h g = refl
  combined-keys (some (number n)) extras h g = refl
  combined-keys (some (text t)) extras h g = refl
  combined-keys (some (array js)) extras h g = h
  combined-keys (some (object base)) extras h g = merge-keys base extras h g

abbrev not_ref : Text → Bool
not_ref k = not (text_beq k ref_key)

-- A walk leaves no reference, if the walk of the definitions leaves none.
module _ (deeper : List Text → Json → Result WalkError Json)
    (good : (names : List Text) (d j : Json) → deeper names d ≡ ok j → all_keys not_ref j ≡ true)
    (defs : Fields) (seen : List Text) where
  follow-keys :
      (target : Option (Text × Json)) (resolved : Option Json)
      → follow deeper defs seen target ≡ ok resolved
      → GoodOption not_ref resolved
  follow-keys none none h = tt
  follow-keys none (some j) h = cc
  follow-keys (some (name, d)) resolved h =
      let (j, walked, last) = >>=-eq-ok (deeper (name ∷ seen) d) (λ j. ok (some j)) h in
      rw (← (ok-injective last)) (good (name ∷ seen) d j walked)

  mutual
    unfolding walk_node all_keys

    walk_node-keys :
        (j j' : Json) → walk_node deeper defs seen j ≡ ok j' → all_keys not_ref j' ≡ true
    walk_node-keys null j' h = rw (← (ok-injective h)) refl
    walk_node-keys (bool b) j' h = rw (← (ok-injective h)) refl
    walk_node-keys (number n) j' h = rw (← (ok-injective h)) refl
    walk_node-keys (text t) j' h = rw (← (ok-injective h)) refl
    walk_node-keys (array js) j' h =
        let (js', walked, last) =
          >>=-eq-ok (walk_items deeper defs seen js) (λ js'. ok (array js')) h in
        rw (← (ok-injective last)) (walk_items-keys js js' walked)
    walk_node-keys (object fs) j' h =
        let (target, found, h1) =
          >>=-eq-ok (target_of defs seen (field_at fs ref_key))
            (λ target. (follow deeper defs seen target) >>= λ resolved.
              (walk_fields deeper defs seen fs) >>= λ extras. ok (combined resolved extras))
            h in
        let (resolved, followed, h2) =
          >>=-eq-ok (follow deeper defs seen target)
            (λ resolved.
              (walk_fields deeper defs seen fs) >>= λ extras. ok (combined resolved extras))
            h1 in
        let (extras, walked, last) =
          >>=-eq-ok (walk_fields deeper defs seen fs) (λ extras. ok (combined resolved extras))
            h2 in
        rw (← (ok-injective last)) (
          combined-keys not_ref resolved extras (follow-keys target resolved followed)
            (walk_fields-keys fs extras walked))

    walk_items-keys :
        (js js' : Items) → walk_items deeper defs seen js ≡ ok js' → item_keys not_ref js' ≡ true
    walk_items-keys no_item js' h = rw (← (ok-injective h)) refl
    walk_items-keys (item j js) js' h =
        let (j1, walked, h1) =
          >>=-eq-ok (walk_node deeper defs seen j)
            (λ j'. (walk_items deeper defs seen js) >>= λ js'. ok (item j' js')) h in
        let (js1, more, last) =
          >>=-eq-ok (walk_items deeper defs seen js) (λ js'. ok (item j1 js')) h1 in
        let head = walk_node-keys j j1 walked in
        let tail = walk_items-keys js js1 more in
        rw (← (ok-injective last)) (ground (arith, head, tail))

    walk_fields-keys :
        (fs fs' : Fields) → walk_fields deeper defs seen fs ≡ ok fs' → field_keys not_ref fs' ≡ true
    walk_fields-keys no_field fs' h = rw (← (ok-injective h)) refl
    walk_fields-keys (field k v rest) fs' h = elim (Bool-cases (text_beq k ref_key)) [
      | inl ref ↦ walk_fields-keys rest fs' (rw (ref) at h)
      | inr plain ↦
          let (v', walked, h1) =
            >>=-eq-ok (walk_node deeper defs seen v)
              (λ v'. (walk_fields deeper defs seen rest) >>= λ rest'. ok (field k v' rest'))
              (rw (plain) at h) in
          let (rest', more, last) =
            >>=-eq-ok (walk_fields deeper defs seen rest) (λ rest'. ok (field k v' rest')) h1 in
          let head = walk_node-keys v v' walked in
          let tail = walk_fields-keys rest rest' more in
          rw (← (ok-injective last)) (ground (arith, plain, head, tail))
    ]

walk-keys :
    (n : ℕ) (defs : Fields) (seen : List Text) (j j' : Json)
    → walk n defs seen j ≡ ok j'
    → all_keys not_ref j' ≡ true
unfolding walk
walk-keys zero defs seen j j' h =
    walk_node-keys (λ names d. err out_of_fuel) (λ names d i e. cc) defs seen j j' h
walk-keys (suc n) defs seen j j' h =
    walk_node-keys (walk n defs) (λ names d i e. walk-keys n defs names d i e) defs seen j j' h

and_first : (a b c : Bool) → (a && (b && c)) ≡ true → a ≡ true
and_first a b c h = ground (arith, h)

and_second : (a b c : Bool) → (a && (b && c)) ≡ true → b ≡ true
and_second a b c h = ground (arith, h)

and_third : (a b c : Bool) → (a && (b && c)) ≡ true → c ≡ true
and_third a b c h = ground (arith, h)

-- A key that Gemini takes: neither a reference nor one that is dropped.
abbrev pub allowed_key : Text → Bool
allowed_key k = not_ref k && not (contains drop k)

kept_keys :
    (k : Text) (v : Json) (rest : Fields)
    → not_ref k ≡ true
    → all_keys allowed_key v ≡ true
    → field_keys allowed_key rest ≡ true
    → field_keys allowed_key (if contains drop k then rest else field k v rest) ≡ true
unfolding all_keys
kept_keys k v rest plain head tail = elim (Bool-cases (contains drop k)) [
  | inl dropped ↦ rw (dropped) tail
  | inr kept ↦ rw (kept) (rw (plain, kept, head, tail) refl)
]

mutual
  unfolding all_keys strip

  strip-keys : (j : Json) → all_keys not_ref j ≡ true → all_keys allowed_key (strip j) ≡ true
  strip-keys null h = refl
  strip-keys (bool b) h = refl
  strip-keys (number n) h = refl
  strip-keys (text t) h = refl
  strip-keys (array js) h = strip_items-keys js h
  strip-keys (object fs) h = strip_fields-keys fs h

  strip_items-keys :
      (js : Items) → item_keys not_ref js ≡ true → item_keys allowed_key (strip_items js) ≡ true
  strip_items-keys no_item h = refl
  strip_items-keys (item j js) h =
      let head = strip-keys j (ground (arith, h)) in
      let tail = strip_items-keys js (ground (arith, h)) in ground (arith, head, tail)

  strip_fields-keys :
      (fs : Fields) → field_keys not_ref fs ≡ true → field_keys allowed_key (strip_fields fs) ≡ true
  strip_fields-keys no_field h = refl
  strip_fields-keys (field k v rest) h =
      let head =
        strip-keys v (and_second (not_ref k) (all_keys not_ref v) (field_keys not_ref rest) h) in
      let tail =
        strip_fields-keys rest
          (and_third (not_ref k) (all_keys not_ref v) (field_keys not_ref rest) h) in
      kept_keys k (strip v) (strip_fields rest)
        (and_first (not_ref k) (all_keys not_ref v) (field_keys not_ref rest) h) head tail

-- A schema that `_gemini_clean_schema` makes of an object, if it is an object, has at no depth a key
-- `$ref`, `$defs`, `definitions`, `$schema`, `title`, `additionalProperties`, `examples` or `default`.
pub clean_schema-keys :
    (fs out : Fields) → clean_schema fs ≡ ok (object out) → field_keys allowed_key out ≡ true
unfolding clean_schema inline_refs strip all_keys
clean_schema-keys fs out h =
    let (j, walked, last) = >>=-eq-ok (inline_refs fs) (λ j. ok (stripped j)) h in
    by_shape j (walk-keys (count (defs_of fs)) (defs_of fs) [] (object fs) j walked)
      (ok-injective last)
  where
    by_shape :
        (j : Json)
        → all_keys not_ref j ≡ true
        → stripped j ≡ object out
        → field_keys allowed_key out ≡ true
    by_shape null plain same = cc
    by_shape (bool b) plain same = cc
    by_shape (number n) plain same = cc
    by_shape (text t) plain same = cc
    by_shape (array js) plain same = cc
    by_shape (object gs) plain same =
        let out_is : strip_fields gs ≡ out = cc (same) in rw (← out_is) (strip_fields-keys gs plain)
