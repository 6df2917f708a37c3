-- ===== src/Ingestion/Extractor.antt =====
-- jenezis/ingestion/extractor.py. The model's call, with pydantic's reading of the answer, is a
-- parameter. Of the system prompt the two lists that it is built from are modelled.
pub mod Merge
use jenezis.Prelude.{
  ℕ, Bool, true, false, ◌||◌, List, [], ◌∷◌, ◌++◌, map, is_empty, elem, Option, none, some, Text,
  Text_eq, strip, insert, keys, values, ◌==◌, Json, null, bool, number, str, arr, obj, nil, cons,
  end, field, nat_eq, codes, Result, ok, raise, ◌>>=◌, not_implemented, value_error, if◌then◌else◌,
}
use jenezis.Core.Unicode.{Unicode}
use jenezis.Core.Prompt.Schema.{Sanitized, sanitize_ontology_schema}
use jenezis.Core.Prompt.Sanitize.{sanitize_for_prompt}
use jenezis.Ingestion.Records.{Entity, Relation}
use jenezis.Ingestion.Embedder.{Client, openai, openrouter}

-- `Extractor.__init__`
unfoldable pub init : Text → Result Client
init provider =
    if provider == codes "openai"
    then ok openai
    else if provider == codes "openrouter"
    then ok openrouter
    else if provider == codes "anthropic"
    then raise not_implemented
    else raise value_error

pub record ExtractedRelation : Type 0 where
  pub source : Text
  pub target : Text
  pub type : Text

pub record ExtractionResult : Type 0 where
  pub entities : List Entity
  pub relations : List ExtractedRelation

abbrev pub empty_result : ExtractionResult
empty_result = record { entities = []; relations = [] }

-- `not value`.
unfoldable pub is_falsy : Json → Bool
is_falsy null = true
is_falsy (bool b) = if b then false else true
is_falsy (number n) = nat_eq n 0
is_falsy (str s) = is_empty s
is_falsy (arr nil) = true
is_falsy (arr (cons x xs)) = false
is_falsy (obj end) = true
is_falsy (obj (field k v fs)) = false

-- A chunk as the extractor reads it.
pub record TextChunk : Type 0 where
  pub id : Text
  pub text : Text

module _ (u : Unicode) (complete : Sanitized → Text → Result ExtractionResult) where
  -- `_create_dynamic_prompt`: no prompt where no entity type is left.
  unfoldable pub create_dynamic_prompt : Json → Result (Option Sanitized)
  create_dynamic_prompt ontology_schema = do
    sanitized_schema ← sanitize_ontology_schema u ontology_schema
    ok (if is_empty sanitized_schema.entity_types then none else some sanitized_schema)

  -- The `try` block: any exception gives the empty result.
  abbrev pub ask : Option Sanitized → Text → Result ExtractionResult
  ask none chunk_text = ok empty_result
  ask (some prompt) chunk_text = elim (complete prompt (sanitize_for_prompt u chunk_text)) [
    | ok result ↦ ok result
    | raise _ ↦ ok empty_result
  ]

  unfoldable pub extract_from_chunk : Text → Json → Result ExtractionResult
  unfolding create_dynamic_prompt is_falsy
  extract_from_chunk chunk_text ontology_schema =
      if is_empty (strip chunk_text) || is_falsy ontology_schema
      then ok empty_result
      else do system_prompt ← create_dynamic_prompt ontology_schema; ask system_prompt chunk_text

  -- `asyncio.gather` over the chunks: an exception of one ends it.
  unfoldable pub gather : List TextChunk → Json → Result (List (TextChunk × ExtractionResult))
  unfolding extract_from_chunk
  gather [] ontology_schema = ok []
  gather (chunk ∷ chunks) ontology_schema = do
    result ← extract_from_chunk chunk.text ontology_schema
    results ← gather chunks ontology_schema
    ok ((chunk, result) ∷ results)

-- The loop over the entities of one result: the first of an identifier is kept.
unfoldable pub add_entities : List (Text × Entity) → List Entity → List (Text × Entity)
add_entities all_entities [] = all_entities
add_entities all_entities (entity ∷ entities) =
    add_entities
      (if elem entity.id (keys all_entities)
        then all_entities
        else insert entity.id entity all_entities)
      entities

abbrev pub tag : Text → ExtractedRelation → Relation Text
tag chunk_id relation = record {
  source_id = relation.source;
  target_id = relation.target;
  type = relation.type;
  chunk_id = chunk_id;
}

-- The loop over the results.
unfoldable pub merge_results :
    List (Text × Entity)
    → List (TextChunk × ExtractionResult)
    → List (Text × Entity) × List (Relation Text)
unfolding add_entities
merge_results all_entities [] = (all_entities, [])
merge_results all_entities ((chunk, result) ∷ results) =
    let (entities, relations) = merge_results (add_entities all_entities result.entities) results in
    (entities, map (tag chunk.id) result.relations ++ relations)

unfoldable pub extract_from_all_chunks :
    Unicode
    → (Sanitized → Text → Result ExtractionResult)
    → List TextChunk
    → Json
    → Result (List Entity × List (Relation Text))
unfolding gather merge_results is_falsy
extract_from_all_chunks u complete chunks ontology_schema =
    if is_falsy ontology_schema then ok ([], []) else do
      results ← gather u complete chunks ontology_schema
      let (all_entities, all_relations) = merge_results [] results
      ok (values all_entities, all_relations)
