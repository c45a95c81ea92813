-- ===== src/Providers/Tests.antt =====
-- A process with one key, and a schema that refers to itself.
use gateway_glc_v.Common.{◌≡◌, ◌≢◌, refl, true, [], ◌∷◌, some, ok, err, All}
use gateway_glc_v.Common.Text.{codes}
use gateway_glc_v.Providers.Models.{
  Environ, build_providers, build_router_providers, gemini_thinking_knob, budget,
}
use gateway_glc_v.Providers.Models.Keyed.{IsKeyed, IsKeyedOrLocal, providers-IsKeyed}
use gateway_glc_v.Providers.Schema.{
  text, object, no_field, field, Fields, out_of_fuel, inline_refs, clean_schema, walk, walk_node,
  strip,
}
use gateway_glc_v.Providers.Schema.Clean.{allowed_key, field_keys, clean_schema-keys}
use gateway_glc_v.Providers.Schema.Total.{clean_schema_ends}

abbrev one_key : Environ
one_key = (codes "GROQ_API_KEY", codes "secret") ∷ []

providers-IsKeyed_example :
    All (IsKeyedOrLocal one_key) (build_providers one_key)
    × All (IsKeyed one_key) (build_router_providers one_key)
providers-IsKeyed_example = providers-IsKeyed one_key

flash_thinks : gemini_thinking_knob (codes "Gemini-2.5-Flash") ≡ some budget
unfolding gemini_thinking_knob
flash_thinks = refl

-- A node that refers to itself, and has a title.
abbrev tree : Fields
tree =
    field (codes "$defs")
      (object (
        field (codes "Node")
          (object (
            field (codes "title") (text (codes "Node")) (
              field (codes "next")
                (object (field (codes "$ref") (text (codes "#/$defs/Node")) no_field)) no_field)))
          no_field))
      (field (codes "$ref") (text (codes "#/$defs/Node")) no_field)

abbrev clean_tree : Fields
clean_tree = field (codes "next") (object no_field) no_field

tree_cleaned : clean_schema tree ≡ ok (object clean_tree)
unfolding clean_schema inline_refs walk walk_node strip
tree_cleaned = refl

clean_schema-keys_example : field_keys allowed_key clean_tree ≡ true
clean_schema-keys_example = clean_schema-keys tree clean_tree tree_cleaned

clean_schema_ends_example : clean_schema tree ≢ err out_of_fuel
clean_schema_ends_example = clean_schema_ends tree

-- A property of the name "title" goes with the keyword.
property_lost :
    clean_schema (
      field
        (codes "properties")
        (object (field (codes "title") (text (codes "string")) no_field))
        no_field)
    ≡ ok (object (field (codes "properties") (object no_field) no_field))
unfolding clean_schema inline_refs walk walk_node strip
property_lost = refl
