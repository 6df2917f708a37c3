-- ===== src/Ingestion/Validator.antt =====
-- jenezis/ingestion/validator.py.
pub mod Laws
use jenezis.Prelude.{
  Bool, true, false, ◌&&◌, List, [], ◌∷◌, map, filter, elem, is_empty, Text, codes, Text_eq,
  lookup_or, if◌then◌else◌,
}
use jenezis.Ingestion.Records.{Entity, Relation, Schema}

pub record Validator : Type 0 where
  pub ontology_schema : Schema
  pub valid_entity_types : List Text
  pub valid_relation_types : List Text

-- `Validator.__init__`
unfoldable pub init : Schema → Validator
init ontology_schema = record {
  ontology_schema = ontology_schema;
  valid_entity_types = lookup_or (codes "entity_types") [] ontology_schema;
  valid_relation_types = lookup_or (codes "relation_types") [] ontology_schema;
}

module _ (v : Validator) where
  -- The test in the loop over the entities.
  abbrev pub is_valid_entity : Entity → Bool
  is_valid_entity entity = elem entity.type v.valid_entity_types

  -- The tests in the loop over the relations.
  abbrev pub is_valid_relation : List Text → Relation Text → Bool
  is_valid_relation valid_entity_ids relation =
      if elem relation.type v.valid_relation_types
      then elem relation.source_id valid_entity_ids && elem relation.target_id valid_entity_ids
      else false

  abbrev pub ids : List Entity → List Text
  ids = map (λ e. e.id)

  unfoldable pub validate_and_filter :
      List Entity → List (Relation Text) → List Entity × List (Relation Text)
  validate_and_filter entities relations =
      if is_empty v.ontology_schema
      then (entities, relations)
      else let valid_entities = filter is_valid_entity entities in
        (valid_entities, filter (is_valid_relation (ids valid_entities)) relations)
