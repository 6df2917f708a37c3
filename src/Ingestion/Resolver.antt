-- ===== src/Ingestion/Resolver.antt =====
-- jenezis/ingestion/resolver.py. Parameters are the comparison `ILIKE` of PostgreSQL, the query by
-- cosine distance of pgvector, and the embedding provider.
pub mod Outcome
use jenezis.Prelude.{
  ℕ, zero, suc, Bool, true, false, List, [], ◌∷◌, ◌++◌, Option, none, some, filter, head?, Text,
  Text_eq, insert, Result, ok, raise, ◌>>=◌, runtime_error, if◌then◌else◌,
}
use jenezis.Ingestion.Records.{Entity}
use jenezis.Ingestion.Embedder.{embed_batch}

pub record NodeAlias : Type 0 where
  pub alias : Text
  pub canonical_node_id : ℕ

-- The closest node that the vector search returns. `S` is the type of a similarity.
pub record Match (S : Type 0) : Type 0 where
  pub node_id : ℕ
  pub node_name : Text
  pub similarity : S

-- What `resolve_entity` returns: the dict of either status.
pub record SimilarityMatch (S : Type 0) : Type 0 where
  pub node_name : Option Text
  pub similarity : S

pub record Unresolved (S : Type 0) : Type 0 where
  pub name : Text
  pub type : Text
  pub similarity_match : SimilarityMatch S

pub data Resolution (S : Type 0) : Type 0 where
  resolved : (canonical_id : ℕ) (original_name : Text) → Resolution S
  unresolved : Unresolved S → Resolution S

-- `E` is the type of an embedding and `S` of a similarity: `is_missing` is `not embedding`,
-- `nearest` the query with `LIMIT 1` on the nodes, and `is_confident` the test
-- `>= RESOLUTION_CONFIDENCE_THRESHOLD`. `ilike alias pattern` is PostgreSQL's comparison.
pub record Services (E S : Type 0) : Type 0 where
  pub ilike : Text → Text → Bool
  pub create : List Text → Result (List E)
  pub is_missing : E → Bool
  pub nearest : E → Option (Match S)
  pub is_confident : S → Bool
  pub zero_similarity : S

module _ {E S : Type 0} (services : Services E S) (aliases : List NodeAlias) where
  unfoldable pub find_by_exact_match : Text → Option ℕ
  find_by_exact_match alias_text =
      elim (head? (filter (λ a. services.ilike a.alias alias_text) aliases)) [
        | none ↦ none
        | some node_alias ↦ some node_alias.canonical_node_id
      ]

  -- An empty answer of the provider makes `[0]` raise IndexError.
  unfoldable pub find_by_vector_similarity : Text → Result (Option (Match S))
  find_by_vector_similarity name = do
    embeddings ← embed_batch services.create (name ∷ [])
    elim (head? embeddings) [
      | none ↦ raise runtime_error
      | some embedding ↦
          ok (if services.is_missing embedding then none else services.nearest embedding)
    ]

  -- The vector search and what follows it.
  abbrev pub by_similarity : Text → Text → Option (Match S) → Resolution S
  by_similarity extracted_name extracted_type none = unresolved (record {
    name = extracted_name;
    type = extracted_type;
    similarity_match = record { node_name = none; similarity = services.zero_similarity };
  })
  by_similarity extracted_name extracted_type (some vector_match) =
      if services.is_confident vector_match.similarity
      then resolved vector_match.node_id extracted_name
      else unresolved (record {
        name = extracted_name;
        type = extracted_type;
        similarity_match = record {
          node_name = some vector_match.node_name;
          similarity = vector_match.similarity;
        };
      })

  abbrev pub search : Text → Text → Result (Resolution S)
  search extracted_name extracted_type = do
    vector_match ← find_by_vector_similarity extracted_name
    ok (by_similarity extracted_name extracted_type vector_match)

  -- `if canonical_id:` treats 0 like None.
  abbrev pub by_exact_match : Text → Text → Option ℕ → Result (Resolution S)
  by_exact_match extracted_name extracted_type none = search extracted_name extracted_type
  by_exact_match extracted_name extracted_type (some zero) = search extracted_name extracted_type
  by_exact_match extracted_name extracted_type (some (suc n)) = ok (resolved (suc n) extracted_name)

  unfoldable pub resolve_entity : Text → Text → Result (Resolution S)
  resolve_entity extracted_name extracted_type =
      by_exact_match extracted_name extracted_type (find_by_exact_match extracted_name)

  -- The two branches of the loop's body.
  abbrev pub add_mapping : Text → Resolution S → List (Text × ℕ) → List (Text × ℕ)
  add_mapping id (resolved canonical_id _) resolved_map = insert id canonical_id resolved_map
  add_mapping id (unresolved item) resolved_map = resolved_map

  abbrev pub add_item : Resolution S → List (Unresolved S) → List (Unresolved S)
  add_item (resolved canonical_id _) unresolved_items = unresolved_items
  add_item (unresolved item) unresolved_items = unresolved_items ++ item ∷ []

  -- The loop over the entities, with the two collections built so far.
  unfoldable pub resolve_from :
      List (Text × ℕ)
      → List (Unresolved S)
      → List Entity
      → Result (List (Text × ℕ) × List (Unresolved S))
  resolve_from resolved_map unresolved_items [] = ok (resolved_map, unresolved_items)
  resolve_from resolved_map unresolved_items (entity ∷ entities) = do
    result ← resolve_entity entity.name entity.type
    resolve_from (add_mapping entity.id result resolved_map) (add_item result unresolved_items)
        entities

  unfoldable pub resolve_all : List Entity → Result (List (Text × ℕ) × List (Unresolved S))
  unfolding resolve_from
  resolve_all entities = resolve_from [] [] entities
