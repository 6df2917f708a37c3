-- ===== src/Storage/Graph/Engine.antt =====
-- The methods of `FalkorEngine` that write to the graph or read it by identifier. What the driver
-- itself may raise is not modelled, apart from what the methods raise of their own.
use jenezis.Prelude.{
  ℕ, Bool, true, false, not, ◌&&◌, List, [], ◌∷◌, ◌++◌, filter, elem, is_empty, length, Text,
  Text_eq, ℕ_eq, codes, Option, none, some, lookup, insert, keys, ◌==◌, Eq, values, lookup_or,
  Result, ok, ◌>>=◌, ◌>>◌, if◌then◌else◌,
}
use jenezis.Storage.Identifiers.{validate_identifier}
use jenezis.Storage.Rows.{
  Value, none_value, text, number, other, Value_eq, Key, get, sanitize_document,
}
use jenezis.Storage.Graph.{Graph, ChunkProps, EntityProps, empty_graph, Pair_eq}

abbrev pub Row : Type 0 → Type 0
Row O = List (Text × Value O)

-- A relation as the store hands it on; `chunk_id` is null where the dict has none.
pub record RelationRow (O : Type 0) : Type 0 where
  pub source_id : Value O
  pub target_id : Value O
  pub type : Option Text
  pub chunk_id : Value O

abbrev pub id_key : Text
id_key = codes "id"

-- MERGE of a relationship without properties.
abbrev pub merge : {A : Type 0} ⦃e : Eq A⦄ → A → List A → List A
merge a xs = if elem a xs then xs else xs ++ a ∷ []

-- `[self._sanitize_document(e, ["id"]) for e in rows]`
module _ {O : Type 0} (is_invalid : O → Bool) where
  unfoldable pub sanitize_rows : List (List (Key × Value O)) → Result (List (Row O))
  sanitize_rows [] = ok []
  sanitize_rows (doc ∷ docs) = do
    row ← sanitize_document is_invalid (id_key ∷ []) doc
    rows ← sanitize_rows docs
    ok (row ∷ rows)

module _ {O : Type 0} ⦃e : Eq O⦄ where
  unfoldable pub upsert_document : ℕ → Text → Graph O → Graph O
  upsert_document document_id filename g = record g {
    documents = insert document_id filename g.documents;
  }

  -- `chunk.get("text", "")`
  abbrev pub text_or_empty : Row O → Value O
  text_or_empty chunk = elim (lookup (codes "text") chunk) [ none ↦ text [] | some v ↦ v ]

  -- A chunk without an embedding has the empty vector, which null stands for here.
  abbrev pub chunk_props : Row O → ChunkProps O
  chunk_props chunk = record {
    text = text_or_empty chunk;
    embedding = get (codes "embedding") chunk;
  }

  -- The statement for one chunk: where the document is missing, MATCH gives no row to write for.
  unfoldable pub upsert_chunk : ℕ → Row O → Graph O → Graph O
  upsert_chunk document_id chunk g =
      if elem document_id (keys g.documents)
      then record g {
        chunks = insert (get id_key chunk) (chunk_props chunk) g.chunks;
        has_chunk = merge (document_id, get id_key chunk) g.has_chunk;
      }
      else g

  unfoldable pub upsert_chunk_rows : ℕ → List (Row O) → Graph O → Graph O
  unfolding upsert_chunk
  upsert_chunk_rows document_id [] g = g
  upsert_chunk_rows document_id (chunk ∷ chunks) g =
      upsert_chunk_rows document_id chunks (upsert_chunk document_id chunk g)

  unfoldable pub upsert_chunks :
      (O → Bool) → ℕ → List (List (Key × Value O)) → Graph O → Result (Graph O)
  unfolding upsert_chunk_rows sanitize_rows
  upsert_chunks is_invalid document_id chunks g = do
    sanitized ← sanitize_rows is_invalid chunks
    ok (upsert_chunk_rows document_id sanitized g)

  abbrev pub entity_props : Row O → EntityProps O
  entity_props row = record {
    name = get (codes "name") row;
    type = get (codes "type") row;
    canonical_id = get (codes "canonical_id") row;
    embedding = get (codes "embedding") row;
  }

  -- `MERGE (e:Entity {id: row.id})`, with what both branches set.
  abbrev pub upsert_entity : Row O → Graph O → Graph O
  upsert_entity row g = record g {
    entities = insert (get id_key row) (entity_props row) g.entities;
  }

  -- `UNWIND $batch AS row`
  unfoldable pub upsert_entity_rows : List (Row O) → Graph O → Graph O
  upsert_entity_rows [] g = g
  upsert_entity_rows (row ∷ rows) g = upsert_entity_rows rows (upsert_entity row g)

  unfoldable pub upsert_entities :
      (O → Bool) → List (List (Key × Value O)) → Graph O → Result (Graph O)
  unfolding upsert_entity_rows sanitize_rows
  upsert_entities is_invalid entities g = do
    sanitized ← sanitize_rows is_invalid entities
    ok (upsert_entity_rows sanitized g)

  -- `rel.get("type", "RELATED_TO")`
  abbrev pub type_of : RelationRow O → Text
  type_of rel = elim rel.type [ none ↦ codes "RELATED_TO" | some t ↦ t ]

  -- `grouped[rel_type].append(rel)` on a defaultdict.
  abbrev pub add_to_group :
      RelationRow O → List (Text × List (RelationRow O)) → List (Text × List (RelationRow O))
  add_to_group rel grouped =
      insert (type_of rel) (lookup_or (type_of rel) [] grouped ++ rel ∷ []) grouped

  unfoldable pub group_by_type :
      List (Text × List (RelationRow O))
      → List (RelationRow O)
      → Result (List (Text × List (RelationRow O)))
  group_by_type grouped [] = ok grouped
  group_by_type grouped (rel ∷ relations) = do
    validate_identifier (type_of rel)
    group_by_type (add_to_group rel grouped) relations

  -- The statement for one row: both ends must be entities.
  unfoldable pub upsert_relation : Text → RelationRow O → Graph O → Graph O
  upsert_relation rel_type row g =
      if elem row.source_id (keys g.entities) && elem row.target_id (keys g.entities)
      then record g {
        relations = insert ((row.source_id, row.target_id), rel_type) row.chunk_id g.relations;
      }
      else g

  unfoldable pub upsert_batch : Text → List (RelationRow O) → Graph O → Graph O
  unfolding upsert_relation
  upsert_batch rel_type [] g = g
  upsert_batch rel_type (row ∷ batch) g =
      upsert_batch rel_type batch (upsert_relation rel_type row g)

  unfoldable pub upsert_groups : List (Text × List (RelationRow O)) → Graph O → Graph O
  unfolding upsert_batch
  upsert_groups [] g = g
  upsert_groups ((rel_type, batch) ∷ grouped) g =
      upsert_groups grouped (upsert_batch rel_type batch g)

  unfoldable pub upsert_relations : List (RelationRow O) → Graph O → Result (Graph O)
  unfolding group_by_type upsert_groups
  upsert_relations relations g = do
    grouped ← group_by_type [] relations
    ok (upsert_groups grouped g)

  unfoldable pub link_entities : Value O → List (Value O) → Graph O → Graph O
  link_entities chunk_id [] g = g
  link_entities chunk_id (eid ∷ entity_ids) g = link_entities chunk_id entity_ids (
      if elem eid (keys g.entities)
      then record g { mentions = merge (chunk_id, eid) g.mentions }
      else g)

  unfoldable pub link_entities_to_chunk : Value O → List (Value O) → Graph O → Graph O
  unfolding link_entities
  link_entities_to_chunk chunk_id entity_ids g =
      if elem chunk_id (keys g.chunks) then link_entities chunk_id entity_ids g else g

  -- `MATCH (d:Document {id: $doc_id})-[:HAS_CHUNK]->(c:Chunk) DETACH DELETE c`
  unfoldable pub delete_chunks : ℕ → Graph O → Graph O
  delete_chunks document_id g =
      let is_gone : Value O → Bool = λ c. elem (document_id, c) g.has_chunk in
      record g {
        chunks = filter (λ c. not (is_gone c.0)) g.chunks;
        has_chunk = filter (λ h. not (is_gone h.1)) g.has_chunk;
        mentions = filter (λ m. not (is_gone m.0)) g.mentions;
      }

  -- `MATCH (d:Document {id: $doc_id}) DETACH DELETE d`
  unfoldable pub delete_document_node : ℕ → Graph O → Graph O
  delete_document_node document_id g = record g {
    documents = filter (λ d. not (d.0 == document_id)) g.documents;
    has_chunk = filter (λ h. not (h.0 == document_id)) g.has_chunk;
  }

  unfoldable pub delete_document : ℕ → Graph O → Graph O
  unfolding delete_chunks delete_document_node
  delete_document document_id g = delete_document_node document_id (delete_chunks document_id g)

  -- `(e)<-[:MENTIONS]-()`
  abbrev pub is_mentioned : Graph O → Value O → Bool
  is_mentioned g eid = elem eid (values g.mentions)

  -- The graph that is left, and the number of the deleted entities.
  unfoldable pub garbage_collect_orphans : Graph O → Graph O × ℕ
  garbage_collect_orphans g = (
    record g {
      entities = filter (λ e. is_mentioned g e.0) g.entities;
      relations = filter (λ r. is_mentioned g r.0.0.0 && is_mentioned g r.0.0.1) g.relations;
    },
    length (filter (λ e. not (is_mentioned g e.0)) g.entities),
  )

  unfoldable pub clear_graph : Graph O → Graph O
  clear_graph g = empty_graph

  -- `e.get("id")` as a condition; an identifier is a text or a number.
  abbrev pub is_truthy : Value O → Bool
  is_truthy none_value = false
  is_truthy (text s) = not (is_empty s)
  is_truthy (number n) = not (n == 0)
  is_truthy (other x) = true
