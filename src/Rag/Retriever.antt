-- ===== src/Rag/Retriever.antt =====
-- `HybridRetriever` of jenezis/rag/retriever.py, with `vector_search` and `hybrid_search` of
-- jenezis/storage/graph_store.py that it calls. The model's answer, the embedding provider and the
-- results of the graph's queries are parameters.
pub mod Routes
use jenezis.Prelude.{
  ℕ, ◌*◌, Bool, true, false, not, List, [], ◌∷◌, map, take, head?, is_empty, Option, none, some,
  Text, Text_eq, codes, ◌==◌, Json, null, bool, number, str, arr, nil, obj, Fields, end, field,
  get_field, Result, ok, raise, ◌>>=◌, runtime_error, value_error, if◌then◌else◌,
}
use jenezis.Core.Unicode.{Unicode}
use jenezis.Core.Prompt.Sanitize.{sanitize_for_prompt}
use jenezis.Core.Prompt.Output.{Plan, validate_llm_json_output}
use jenezis.Storage.Labels.{sanitize_label, type_filter}
use jenezis.Ingestion.Embedder.{embed_batch}
use jenezis.Ingestion.Extractor.{is_falsy}
use jenezis.Rag.Fusion.{Floats, Found, Fused, reciprocal_rank_fusion}

abbrev pub allowed_intents : List Text
allowed_intents =
    codes "find_connections"
    ∷ codes "find_mitigating_controls"
    ∷ codes "get_attributes"
    ∷ codes "semantic_search"
    ∷ []

-- What the retriever calls: the planner's model with `json.loads` of its answer, Python's `str` of a
-- dict, the embedding endpoint, and the queries, which may raise. `E` is the type of an embedding.
pub record Backend (D E : Type 0) : Type 0 where
  pub complete : Text → Result Json
  pub show : Fields → Text
  pub create : List Text → Result (List E)
  pub is_missing : E → Bool
  pub query_chunks : E → ℕ → Result (List (Found D))
  pub recent_chunks : ℕ → Result (List (Found D))
  pub query_entities : E → Text → ℕ → Result (List (Found D))
  pub query_connections : Json → ℕ → Result (List (Found D))
  pub query_controls : Json → ℕ → Result (List (Found D))
  pub query_attributes : Json → ℕ → Result (List (Found D))

-- What `retrieve` returns: the dicts of one search, or the fused ones.
pub data Retrieved (D S : Type 0) : Type 0 where
  found : List (Found D) → Retrieved D S
  fused : List (Fused D S) → Retrieved D S

-- `try: return ... except Exception: return []`
abbrev pub or_nothing : {D : Type 0} → Result (List (Found D)) → List (Found D)
or_nothing (ok results) = results
or_nothing (raise _) = []

abbrev pub semantic_plan : Plan
semantic_plan = record { intent = some (str (codes "semantic_search")); parameters = some end }

-- `if not plan`: the fallback for the dict that has neither key.
abbrev pub or_semantic : Option Json → Option Fields → Plan → Plan
or_semantic none none plan = semantic_plan
or_semantic none (some _) plan = plan
or_semantic (some _) _ plan = plan

-- `params.get(key, default)`
abbrev pub get_param : Text → Json → Plan → Json
get_param key default plan = elim plan.parameters [
  | none ↦ default
  | some params ↦ elim (get_field key params) [ none ↦ default | some v ↦ v ]
]

-- The `try` around `sanitize_label`: a value of another type than text raises as well.
abbrev pub entity_type_of : Json → Option Text
entity_type_of (str t) =
    if is_empty t then none else elim (sanitize_label t) [ ok _ ↦ some t | raise _ ↦ none ]
entity_type_of _ = none

module _ {D E : Type 0} (u : Unicode) (backend : Backend D E) where
  abbrev pub checked_plan : Result Plan → Plan
  checked_plan (ok plan) = or_semantic plan.intent plan.parameters plan
  checked_plan (raise _) = semantic_plan

  unfoldable pub plan_query : Text → Plan
  plan_query query = checked_plan (do
    raw_plan ← backend.complete (sanitize_for_prompt u query)
    validate_llm_json_output u backend.show raw_plan allowed_intents)

  -- `embeddings[0]`, where there is one.
  abbrev pub first_embedding : List E → Option E
  first_embedding embeddings = elim (head? embeddings) [
    | none ↦ none
    | some e ↦ if backend.is_missing e then none else some e
  ]

  -- `GraphStore.vector_search`, with its fallback.
  unfoldable pub store_vector_search : E → ℕ → Result (List (Found D))
  store_vector_search query_embedding top_k = elim (backend.query_chunks query_embedding top_k) [
    | ok results ↦ ok results
    | raise _ ↦ backend.recent_chunks top_k
  ]

  unfoldable pub vector_search : Text → ℕ → Result (List (Found D))
  unfolding store_vector_search
  vector_search query k = do
    embeddings ← embed_batch backend.create (query ∷ [])
    elim (first_embedding embeddings) [
      | none ↦ ok []
      | some query_embedding ↦ store_vector_search query_embedding k
    ]

  -- `GraphStore.hybrid_search`
  unfoldable pub store_hybrid_search : E → Option Text → ℕ → Result (List (Found D))
  store_hybrid_search query_embedding entity_type_filter top_k = do
    cypher_filter ← type_filter entity_type_filter
    backend.query_entities query_embedding cypher_filter top_k

  unfoldable pub hybrid_entity_search : Text → Option Text → ℕ → Result (List (Found D))
  unfolding store_hybrid_search
  hybrid_entity_search query entity_type k = do
    embeddings ← embed_batch backend.create (query ∷ [])
    elim (first_embedding embeddings) [
      | none ↦ ok []
      | some query_embedding ↦ store_hybrid_search query_embedding entity_type k
    ]

  unfoldable pub find_connections : Json → ℕ → List (Found D)
  find_connections entity_names k =
      if is_falsy entity_names then [] else or_nothing (backend.query_connections entity_names k)

  unfoldable pub find_mitigating_controls : Json → ℕ → List (Found D)
  find_mitigating_controls risk_name k =
      if is_falsy risk_name then [] else or_nothing (backend.query_controls risk_name k)

  unfoldable pub get_entity_attributes : Json → ℕ → List (Found D)
  get_entity_attributes entity_name k =
      if is_falsy entity_name then [] else or_nothing (backend.query_attributes entity_name k)

  -- The branches of `_graph_search`; an intent that is no text equals none of the names.
  abbrev pub route : Text → ℕ → Plan → Json → Result (List (Found D))
  route query k plan (str intent) =
      if intent == codes "semantic_search"
      then hybrid_entity_search query (entity_type_of (get_param (codes "entity_type") null plan)) k
      else if intent == codes "find_connections"
      then ok (find_connections (get_param (codes "entity_names") (arr nil) plan) k)
      else if intent == codes "find_mitigating_controls"
      then ok (find_mitigating_controls (get_param (codes "risk_name") (str []) plan) k)
      else if intent == codes "get_attributes"
      then ok (get_entity_attributes (get_param (codes "entity_name") (str []) plan) k)
      else hybrid_entity_search query none k
  route query k plan _ = hybrid_entity_search query none k

  unfoldable pub graph_search : Text → ℕ → Result (List (Found D))
  unfolding plan_query
  graph_search query k =
      let plan = plan_query query in
      route query k plan
        (elim plan.intent [ none ↦ str (codes "semantic_search") | some intent ↦ intent ])

  -- `asyncio.gather` of the two searches; of two exceptions the vector search's is taken.
  abbrev pub hybrid : {S : Type 0} → Floats S → ℕ → Text → ℕ → Result (List (Fused D S))
  hybrid floats rrf_k query top_k = do
    vector_results ← vector_search query (top_k * 2)
    graph_results ← graph_search query (top_k * 2)
    results ← reciprocal_rank_fusion floats rrf_k (vector_results ∷ graph_results ∷ [])
    ok (take top_k results)

  unfoldable pub retrieve : {S : Type 0} → Floats S → ℕ → Text → ℕ → Text → Result (Retrieved D S)
  retrieve floats rrf_k query top_k search_type =
      if search_type == codes "vector"
      then (do results ← vector_search query top_k; ok (found results))
      else if search_type == codes "graph"
      then (do results ← graph_search query top_k; ok (found results))
      else if search_type == codes "hybrid"
      then (do results ← hybrid floats rrf_k query top_k; ok (fused results))
      else raise value_error

  unfoldable pub retrieve_fast : Text → ℕ → Option Text → Result (List (Found D))
  retrieve_fast query top_k entity_type = hybrid_entity_search query entity_type top_k
