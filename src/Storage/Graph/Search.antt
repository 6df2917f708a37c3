-- ===== src/Storage/Graph/Search.antt =====
-- The searches of `FalkorEngine` in jenezis/storage/falkor_engine.py. The vector index is a parameter;
-- the neighbours are read from the graph.
pub mod Neighbors
use jenezis.Prelude.{
  ℕ, ◌*◌, Bool, true, false, List, [], ◌∷◌, ◌++◌, map, take, Option, none, some, lookup, Text,
  Text_eq, codes, ◌==◌, Eq, Result, ok, raise, ◌>>=◌, ◌>>◌, if◌then◌else◌, ◌&&◌,
}
use jenezis.Storage.Identifiers.{validate_identifier}
use jenezis.Storage.Rows.{Value, none_value, number, Value_eq, get}
use jenezis.Storage.Graph.{Graph}
use jenezis.Storage.Graph.Engine.{Row, id_key, is_truthy}

pub record Neighbor (O : Type 0) : Type 0 where
  pub rel_type : Text
  pub id : Value O
  pub name : Value O
  pub type : Value O

pub record Hit (O S : Type 0) : Type 0 where
  pub id : Value O
  pub name : Value O
  pub type : Value O
  pub score : S
  pub neighbors : List (Neighbor O)

-- The two calls of the vector index, `E` being the type of a query's vector: the rows of the first are
-- the columns, and those of the second the properties of the nodes.
pub record VectorIndex (O E S : Type 0) : Type 0 where
  pub query_columns : Text → Text → ℕ → E → Result (List ((Value O × Value O × Value O) × S))
  pub query_nodes : Text → ℕ → E → Text → ℕ → Result (List (Row O × S))

module _ {O : Type 0} ⦃e : Eq O⦄ where
  -- An entity at the other end of a relationship.
  abbrev pub entity_end : Graph O → Text → Value O → Neighbor O
  entity_end g rel_type id = elim (lookup id g.entities) [
    | none ↦ record { rel_type = rel_type; id = id; name = none_value; type = none_value }
    | some props ↦ record { rel_type = rel_type; id = id; name = props.name; type = props.type }
  ]

  -- A chunk or a document has no property `name` and no `type`.
  abbrev pub bare_end : Text → Value O → Neighbor O
  bare_end rel_type id = record {
    rel_type = rel_type;
    id = id;
    name = none_value;
    type = none_value;
  }

  abbrev pub when : Bool → Neighbor O → List (Neighbor O)
  when b n = if b then n ∷ [] else []

  -- A relation is matched in both directions, and one from a node to itself once.
  unfoldable pub by_relations :
      Graph O → Value O → List (((Value O × Value O) × Text) × Value O) → List (Neighbor O)
  by_relations g id [] = []
  by_relations g id ((((source, target), rel_type), _) ∷ relations) =
      (if source == id
        then entity_end g rel_type target ∷ []
        else if target == id
        then entity_end g rel_type source ∷ []
        else [])
      ++ by_relations g id relations

  unfoldable pub by_mentions : Graph O → Value O → List (Value O × Value O) → List (Neighbor O)
  by_mentions g id [] = []
  by_mentions g id ((chunk_id, entity_id) ∷ mentions) =
      when (chunk_id == id) (entity_end g (codes "MENTIONS") entity_id)
      ++ (when (entity_id == id) (bare_end (codes "MENTIONS") chunk_id)
          ++ by_mentions g id mentions)

  unfoldable pub by_chunks : Value O → List (ℕ × Value O) → List (Neighbor O)
  by_chunks id [] = []
  by_chunks id ((document_id, chunk_id) ∷ has_chunk) =
      when (number document_id == id) (bare_end (codes "HAS_CHUNK") chunk_id)
      ++ (when (chunk_id == id) (bare_end (codes "HAS_CHUNK") (number document_id))
          ++ by_chunks id has_chunk)

  -- `MATCH (n {id: $node_id})-[r]-(m)`
  unfoldable pub matches : Graph O → Value O → List (Neighbor O)
  unfolding by_relations by_mentions by_chunks
  matches g id =
      by_relations g id g.relations ++ (by_mentions g id g.mentions ++ by_chunks id g.has_chunk)

  -- The result of the query, with its `LIMIT 10`.
  unfoldable pub neighbors : Graph O → Value O → List (Neighbor O)
  unfolding matches
  neighbors g id = take 10 (matches g id)

  -- `if expand_neighbors and node_data["id"]`
  unfoldable pub expand : Graph O → Bool → Value O → List (Neighbor O)
  unfolding neighbors
  expand g expand_neighbors id = if expand_neighbors && is_truthy id then neighbors g id else []

module _ {O E S : Type 0} ⦃e : Eq O⦄ (index : VectorIndex O E S) where
  abbrev pub plain_hit : (Value O × Value O × Value O) × S → Hit O S
  plain_hit ((id, name, type), score) = record {
    id = id;
    name = name;
    type = type;
    score = score;
    neighbors = [];
  }

  -- The dicts of the pure search have no key `neighbors`, which the empty list stands for here.
  unfoldable pub vector_search : E → Text → Text → ℕ → Result (List (Hit O S))
  vector_search query_vector label property_name top_k = do
    validate_identifier label
    rows ← index.query_columns label property_name top_k query_vector
    ok (map plain_hit rows)

  abbrev pub node_hit : Graph O → Bool → Row O × S → Hit O S
  node_hit g expand_neighbors (properties, score) = record {
    id = get id_key properties;
    name = get (codes "name") properties;
    type = get (codes "type") properties;
    score = score;
    neighbors = expand g expand_neighbors (get id_key properties);
  }

  unfoldable pub hybrid_search : Graph O → E → Text → Text → ℕ → Bool → Result (List (Hit O S))
  unfolding expand
  hybrid_search g query_vector label cypher_filter top_k expand_neighbors = do
    validate_identifier label
    rows ← index.query_nodes label (top_k * 2) query_vector cypher_filter top_k
    ok (map (node_hit g expand_neighbors) rows)
