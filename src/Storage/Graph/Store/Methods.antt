-- ===== src/Storage/Graph/Store/Methods.antt =====
-- The methods of GraphStore in jenezis/storage/graph_store.py that hand their arguments on to the engine.
use jenezis.Prelude.{ℕ, Bool, List, Option, Text, codes, Eq, Result, ◌>>=◌}
use jenezis.Storage.Rows.{Value, Key}
use jenezis.Storage.Labels.{type_filter}
use jenezis.Storage.Graph.{Graph, EntityProps}
use jenezis.Storage.Graph.Engine.{upsert_document, upsert_chunks, delete_document}
use jenezis.Storage.Graph.Reads.{get_entity_by_id, get_chunk_context}
use jenezis.Storage.Graph.Schema.{Index, Database, initialize_schema}
use jenezis.Storage.Graph.Search
use jenezis.Storage.Graph.Search.{Hit, VectorIndex}

abbrev initialize_constraints_and_indexes : Database → List Index → Result (Unit {0}) × List Index
initialize_constraints_and_indexes db = initialize_schema db

module _ {O : Type 0} ⦃e : Eq O⦄ where
  abbrev add_document_node : ℕ → Text → Graph O → Graph O
  add_document_node document_id filename = upsert_document document_id filename

  abbrev add_chunks : (O → Bool) → ℕ → List (List (Key × Value O)) → Graph O → Result (Graph O)
  add_chunks is_invalid document_id chunks = upsert_chunks is_invalid document_id chunks

  abbrev delete_document_and_associated_data : ℕ → Graph O → Graph O
  delete_document_and_associated_data document_id = delete_document document_id

  abbrev get_entity_context : Value O → Graph O → Option (Value O × EntityProps O)
  get_entity_context entity_id g = get_entity_by_id entity_id g

  abbrev get_chunk_with_entities :
      Value O → Graph O → Option (Value O × Value O × List (Value O × EntityProps O))
  get_chunk_with_entities chunk_id g = get_chunk_context chunk_id g

  -- The filter is checked before it is put into the query.
  abbrev hybrid_search :
      {E S : Type 0}
      → VectorIndex O E S
      → Graph O
      → E
      → Option Text
      → ℕ
      → Bool
      → Result (List (Hit O S))
  hybrid_search index g query_embedding entity_type_filter top_k expand_neighbors = do
    cypher_filter ← type_filter entity_type_filter
    Search.hybrid_search index g query_embedding (codes "Entity") cypher_filter top_k
        expand_neighbors
