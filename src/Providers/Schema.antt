-- ===== src/Providers/Schema.antt =====
-- glc/providers.py: `_gemini_inline_refs` and `_gemini_clean_schema`.
-- A JSON object keeps the order of its keys. `walk` runs on fuel, one unit for each reference that it
-- follows.
pub mod Clean
pub mod Total
use gateway_glc_v.Common.{
  ℕ, zero, suc, ◌+◌, Bool, true, false, not, ◌&&◌, ◌||◌, List, [], ◌∷◌, Option, none, some,
  if◌then◌else◌, contains, Result, ok, err, ◌>>=◌,
}
use gateway_glc_v.Common.Text.{Text, codes, text_beq, text_eq, starts_with, after_prefix}

mutual
  pub data Json : Type 0 where
    null : Json
    bool : Bool → Json
    number : ℕ → Json
    text : Text → Json
    array : Items → Json
    object : Fields → Json

  pub data Items : Type 0 where
    no_item : Items
    item : Json → Items → Items

  pub data Fields : Type 0 where
    no_field : Fields
    field : Text → Json → Fields → Fields

abbrev pub field_at : Fields → Text → Option Json
field_at no_field key = none
field_at (field k v rest) key = if text_beq k key then some v else field_at rest key

abbrev pub set_field : Fields → Text → Json → Fields
set_field no_field key v = field key v no_field
set_field (field k w rest) key v =
    if text_beq k key then field key v rest else field k w (set_field rest key v)

-- `{**base, **extras}`
abbrev pub merge : Fields → Fields → Fields
merge base no_field = base
merge base (field k v rest) = merge (set_field base k v) rest

-- What `walk` may raise: the AttributeError of a `$ref` that is not a text. `out_of_fuel` is the
-- model's own.
pub data WalkError : Type 0 where
  not_a_text : WalkError
  out_of_fuel : WalkError

abbrev pub ref_key : Text
ref_key = codes "$ref"

-- The name that a reference has, or none
abbrev name_of : Text → Option Text
name_of target =
    if starts_with target (codes "#/$defs/")
    then some (after_prefix target (codes "#/$defs/"))
    else if starts_with target (codes "#/definitions/")
    then some (after_prefix target (codes "#/definitions/"))
    else none

-- `name and name in defs and name not in seen`, with the definition
abbrev usable : Fields → List Text → Text → Option Json → Option (Text × Json)
usable defs seen name none = none
usable defs seen name (some d) =
    if text_beq name [] || contains seen name then none else some (name, d)

abbrev usable_name : Fields → List Text → Option Text → Option (Text × Json)
usable_name defs seen none = none
usable_name defs seen (some name) = usable defs seen name (field_at defs name)

-- The definition to put in the place of a node, if it has a reference that can be followed.
abbrev pub target_of : Fields → List Text → Option Json → Result WalkError (Option (Text × Json))
target_of defs seen none = ok none
target_of defs seen (some null) = err not_a_text
target_of defs seen (some (bool b)) = err not_a_text
target_of defs seen (some (number n)) = err not_a_text
target_of defs seen (some (text t)) = ok (usable_name defs seen (name_of t))
target_of defs seen (some (array js)) = err not_a_text
target_of defs seen (some (object fs)) = err not_a_text

-- A node with what its reference stands for: `{**resolved, **extras}`, or one of them alone
abbrev pub combined : Option Json → Fields → Json
combined none extras = object extras
combined (some null) extras = null
combined (some (bool b)) extras = bool b
combined (some (number n)) extras = number n
combined (some (text t)) extras = text t
combined (some (array js)) extras = array js
combined (some (object base)) extras = object (merge base extras)

-- The walk of a node, with the walk of a definition that `seen` does not have yet.
module _ (deeper : List Text → Json → Result WalkError Json) (defs : Fields)
    (seen : List Text) where
  abbrev pub follow : Option (Text × Json) → Result WalkError (Option Json)
  follow none = ok none
  follow (some (name, d)) = (deeper (name ∷ seen) d) >>= λ j. ok (some j)

  unfoldable mutual
    pub walk_node : Json → Result WalkError Json
    walk_node null = ok null
    walk_node (bool b) = ok (bool b)
    walk_node (number k) = ok (number k)
    walk_node (text t) = ok (text t)
    walk_node (array js) = (walk_items js) >>= λ js'. ok (array js')
    walk_node (object fs) = (target_of defs seen (field_at fs ref_key)) >>= λ target.
        (follow target) >>= λ resolved. (walk_fields fs) >>= λ extras. ok (combined resolved extras)

    pub walk_items : Items → Result WalkError Items
    walk_items no_item = ok no_item
    walk_items (item j js) = (walk_node j) >>= λ j'. (walk_items js) >>= λ js'. ok (item j' js')

    -- `{k: walk(v, seen) for k, v in node.items() if k != "$ref"}`
    pub walk_fields : Fields → Result WalkError Fields
    walk_fields no_field = ok no_field
    walk_fields (field k v rest) =
        let tail = walk_fields rest in
        let here = walk_node v in
        if text_beq k ref_key then tail else here >>= λ v'. tail >>= λ rest'. ok (field k v' rest')

-- `walk`
unfoldable pub walk : ℕ → Fields → List Text → Json → Result WalkError Json
walk zero defs seen j = walk_node (λ names d. err out_of_fuel) defs seen j
walk (suc n) defs seen j = walk_node (walk n defs) defs seen j

abbrev pub fields_in : Option Json → Fields
fields_in none = no_field
fields_in (some null) = no_field
fields_in (some (bool b)) = no_field
fields_in (some (number n)) = no_field
fields_in (some (text t)) = no_field
fields_in (some (array js)) = no_field
fields_in (some (object fs)) = fs

abbrev or_fields : Fields → Fields → Fields
or_fields no_field other = other
or_fields (field k v rest) other = field k v rest

-- `schema.get("$defs") or schema.get("definitions") or {}`, where these are objects if present
abbrev pub defs_of : Fields → Fields
defs_of fs =
    or_fields (fields_in (field_at fs (codes "$defs")))
      (fields_in (field_at fs (codes "definitions")))

abbrev pub count : Fields → ℕ
count no_field = 0
count (field k v rest) = suc (count rest)

-- `_gemini_inline_refs` of an object
unfoldable pub inline_refs : Fields → Result WalkError Json
inline_refs fs = walk (count (defs_of fs)) (defs_of fs) [] (object fs)

abbrev pub drop : List Text
drop =
    codes "additionalProperties"
    ∷ codes "$schema"
    ∷ codes "title"
    ∷ codes "definitions"
    ∷ codes "$defs"
    ∷ codes "examples"
    ∷ codes "default"
    ∷ []

unfoldable mutual
  pub strip : Json → Json
  strip null = null
  strip (bool b) = bool b
  strip (number n) = number n
  strip (text t) = text t
  strip (array js) = array (strip_items js)
  strip (object fs) = object (strip_fields fs)

  pub strip_items : Items → Items
  strip_items no_item = no_item
  strip_items (item j js) = item (strip j) (strip_items js)

  pub strip_fields : Fields → Fields
  strip_fields no_field = no_field
  strip_fields (field k v rest) =
      let tail = strip_fields rest in
      let here = strip v in if contains drop k then tail else field k here tail

-- `_gemini_clean_schema` of an object; what is not an object after that is returned as it is
abbrev stripped : Json → Json
stripped null = null
stripped (bool b) = bool b
stripped (number n) = number n
stripped (text t) = text t
stripped (array js) = array js
stripped (object fs) = strip (object fs)

unfoldable pub clean_schema : Fields → Result WalkError Json
clean_schema fs = (inline_refs fs) >>= λ j. ok (stripped j)
