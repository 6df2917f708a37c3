-- ===== src/Core/Prompt/Schema.antt =====
-- `sanitize_ontology_schema` of jenezis/core/prompt_security.py.
pub mod Types
use jenezis.Prelude.{
  ℕ, Bool, true, false, ◌||◌, List, [], ◌∷◌, map, filter, take, is_empty, Option, none, some, Text,
  codes, is_space, Json, arr, obj, Items, nil, Fields, get_field, texts, Result, ok, raise, ◌>>=◌,
  value_error, if◌then◌else◌,
}
use jenezis.Core.Unicode.{Unicode}

-- The two lists of a sanitized schema.
pub record Sanitized : Type 0 where
  pub entity_types : List Text
  pub relation_types : List Text

-- `schema.get(key, [])`, which must be a list.
unfoldable pub list_field : Text → Fields → Result Items
list_field key schema = elim (get_field key schema) [
  | none ↦ ok nil
  | some (arr xs) ↦ ok xs
  | some _ ↦ raise value_error
]

-- `if clean_type: result.append(clean_type)`
abbrev pub nonempty : List Text → List Text
nonempty = filter (λ t. if is_empty t then false else true)

module _ (u : Unicode) where
  -- `re.sub(r'[^\w\s]', '', etype)[:64]`
  unfoldable pub clean_entity_type : Text → Text
  clean_entity_type etype = take 64 (filter (λ c. u.is_word c || is_space c) etype)

  -- `re.sub(r'[^\w]', '_', rtype).upper()[:64]`
  unfoldable pub clean_relation_type : Text → Text
  clean_relation_type rtype = take 64 (u.upper (map (λ c. if u.is_word c then c else b'_') rtype))

  unfoldable pub sanitize_ontology_schema : Json → Result Sanitized
  unfolding list_field
  sanitize_ontology_schema (obj schema) = do
    entity_types ← list_field (codes "entity_types") schema
    relation_types ← list_field (codes "relation_types") schema
    ok (record {
      entity_types = nonempty (map clean_entity_type (texts entity_types));
      relation_types = nonempty (map clean_relation_type (texts relation_types));
    })
  sanitize_ontology_schema _ = raise value_error
