-- ===== src/Storage/Graph/Store.antt =====
-- `GraphStore` of jenezis/storage/graph_store.py: the writes that combine several methods of the
-- engine. A call returns what it raises together with the graph that it leaves.
pub mod Ends
mod Methods
pub mod Foreign
use jenezis.Prelude.{
  ℕ, Bool, true, false, ◌&&◌, List, [], ◌∷◌, ◌++◌, is_empty, elem, Text, Text_eq, codes, Option,
  none, some, lookup_or, insert, ◌==◌, Eq, nat_eq, Result, ok, raise, ◌>>=◌, ◌>>◌, runtime_error,
  invalid_label, if◌then◌else◌,
}
use jenezis.Storage.Labels.{sanitize_label, sanitize_types}
use jenezis.Storage.Rows.{
  Value, none_value, text, number, other, Value_eq, Key, text_key, other_key,
}
use jenezis.Storage.Graph.{Graph}
use jenezis.Storage.Graph.Engine.{
  RelationRow, merge, is_truthy, upsert_entities, upsert_relations, link_entities_to_chunk,
}

module _ {O : Type 0} ⦃e : Eq O⦄ where
  -- `entity.get('type', '')`
  abbrev pub type_value : List (Key × Value O) → Value O
  type_value [] = text []
  type_value ((other_key, v) ∷ doc) = type_value doc
  type_value ((text_key k, v) ∷ doc) = if k == codes "type" then v else type_value doc

  -- `sanitize_label` on a value: where it is true and no text, `.replace` raises AttributeError.
  abbrev pub check_label : Value O → Result (Unit {0})
  check_label none_value = raise invalid_label
  check_label (text s) = do _ ← sanitize_label s; ok tt
  check_label (number n) = if nat_eq n 0 then raise invalid_label else raise runtime_error
  check_label (other x) = raise runtime_error

  unfoldable pub sanitize_entities : List (List (Key × Value O)) → Result (Unit {0})
  sanitize_entities [] = ok tt
  sanitize_entities (entity ∷ entities) = do
    check_label (type_value entity)
    sanitize_entities entities

  -- `chunk_entities[chunk_id].add(entity_id)` on a defaultdict of sets.
  abbrev pub add_to_set :
      Value O → Value O → List (Value O × List (Value O)) → List (Value O × List (Value O))
  add_to_set chunk_id entity_id sets =
      insert chunk_id (merge entity_id (lookup_or chunk_id [] sets)) sets

  -- The loop that groups the ends of the relations by chunk.
  unfoldable pub group_by_chunk :
      List (Value O × List (Value O)) → List (RelationRow O) → List (Value O × List (Value O))
  group_by_chunk chunk_entities [] = chunk_entities
  group_by_chunk chunk_entities (rel ∷ relations) =
      group_by_chunk
        (if is_truthy rel.chunk_id
          then add_to_set rel.chunk_id rel.target_id
              (add_to_set rel.chunk_id rel.source_id chunk_entities)
          else chunk_entities)
        relations

  unfoldable pub link_chunks : List (Value O × List (Value O)) → Graph O → Graph O
  link_chunks [] g = g
  link_chunks ((chunk_id, entity_ids) ∷ chunk_entities) g =
      link_chunks chunk_entities (link_entities_to_chunk chunk_id entity_ids g)

  -- A call that may raise: an exception leaves the graph that the call before it left.
  abbrev pub attempt :
      {B : Type 0}
      → Result B
      → Graph O
      → (B → Result (Unit {0}) × Graph O)
      → Result (Unit {0}) × Graph O
  attempt (ok b) g k = k b
  attempt (raise error) g k = (raise error, g)

  -- The calls of the engine for the relations.
  abbrev pub add_relations : List (RelationRow O) → Graph O → Result (Unit {0}) × Graph O
  add_relations [] g = (ok tt, g)
  add_relations (rel ∷ relations) g =
      attempt (upsert_relations (rel ∷ relations) g) g
        (λ written. (ok tt, link_chunks (group_by_chunk [] (rel ∷ relations)) written))

  abbrev pub check_batches : List (List (Key × Value O)) → List (RelationRow O) → Result (Unit {0})
  check_batches entities relations = do
    sanitize_entities entities
    sanitize_types (λ r. r.type) relations

  unfoldable pub add_entities_and_relations :
      (O → Bool)
      → List (List (Key × Value O))
      → List (RelationRow O)
      → Graph O
      → Result (Unit {0}) × Graph O
  add_entities_and_relations is_invalid entities relations g =
      attempt (check_batches entities relations) g
        (λ _. attempt (upsert_entities is_invalid entities g) g (add_relations relations))
