-- ===== src/Storage/Graph/Reads.antt =====
-- The methods of `FalkorEngine` in jenezis/storage/falkor_engine.py that read nodes by identifier, and
-- that count them.
use jenezis.Prelude.{
  ℕ, ◌+◌, ◌&&◌, List, filter, elem, is_empty, length, Text, Text_eq, ℕ_eq, codes, Option, none,
  some, lookup, ◌==◌, Eq, Result, ok, ◌>>◌, if◌then◌else◌,
}
use jenezis.Storage.Identifiers.{validate_identifier}
use jenezis.Storage.Rows.{Value, Value_eq}
use jenezis.Storage.Graph.{Graph, EntityProps, Pair_eq}
use jenezis.Storage.Graph.Engine.{is_truthy}

module _ {O : Type 0} ⦃e : Eq O⦄ where
  unfoldable pub get_entity_by_id : Value O → Graph O → Option (Value O × EntityProps O)
  get_entity_by_id entity_id g = elim (lookup entity_id g.entities) [
    | none ↦ none
    | some props ↦ some (entity_id, props)
  ]

  -- The chunk's text and the entities that it mentions.
  unfoldable pub get_chunk_context :
      Value O → Graph O → Option (Value O × Value O × List (Value O × EntityProps O))
  get_chunk_context chunk_id g = elim (lookup chunk_id g.chunks) [
    | none ↦ none
    | some props ↦ some (
      chunk_id,
      props.text,
      filter (λ e. elem (chunk_id, e.0) g.mentions && is_truthy e.0) g.entities,
    )
  ]

  -- `MATCH (n:label) RETURN count(n)` on the labels that the methods write.
  abbrev pub count_label : Text → Graph O → ℕ
  count_label label g =
      if label == codes "Document"
      then length g.documents
      else if label == codes "Chunk"
      then length g.chunks
      else if label == codes "Entity"
      then length g.entities
      else 0

  unfoldable pub count_nodes : Option Text → Graph O → Result ℕ
  count_nodes none g = ok (length g.documents + length g.chunks + length g.entities)
  count_nodes (some label) g =
      if is_empty label
      then ok (length g.documents + length g.chunks + length g.entities)
      else do validate_identifier label; ok (count_label label g)
