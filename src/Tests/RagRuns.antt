-- ===== src/Tests/RagRuns.antt =====
-- The retrieval and the answer on concrete results.
use mathlib.Core.List.{Perm}
use jenezis.Prelude.{
  Distinct, elem, not, is_empty, ℕ, ◌≤◌, ◌≡◌, refl, false, List, [], ◌∷◌, map, length, lookup, none,
  some, Text, Text_eq, codes, text_eq, arith, ok, raise, runtime_error, query_error, get_field,
}
use jenezis.Tests.Samples.{ascii, scores}
use jenezis.Storage.Labels.{type_filter}
use jenezis.Rag.Fusion.{Found, Fused, score_sets, reciprocal_rank_fusion}
use jenezis.Rag.Fusion.Order.{IsTotal, IsDescending, reciprocal_rank_fusion_total}
use jenezis.Rag.Fusion.Contents.{result_of}
use jenezis.Rag.Fusion.Sums.{sum_from, all_ranks, lookup-score_sets}
use jenezis.Rag.Retriever.{
  Backend, fused, plan_query, vector_search, graph_search, retrieve, hybrid_entity_search,
  store_vector_search, store_hybrid_search,
}
use jenezis.Rag.Retriever.Routes.{retrieve-hybrid}
use jenezis.Rag.Generator.{Fields}
use jenezis.Ingestion.Embedder.{embed_batch, clean_text}

scores-IsTotal : IsTotal scores
scores-IsTotal = (λ a b h. ground arith, λ a b c h k. ground arith)

abbrev first : Found ℕ
first = record { chunk_id = some (codes "c1"); rest = 0 }

abbrev second : Found ℕ
second = record { chunk_id = some (codes "c2"); rest = 0 }

abbrev sets : List (List (Found ℕ))
sets = (first ∷ second ∷ []) ∷ (second ∷ []) ∷ []

lookup-score_sets_example :
    lookup (codes "c2") (score_sets scores 60 sets ([], [])).0
    ≡ sum_from scores 60 none (all_ranks (codes "c2") sets)
lookup-score_sets_example = lookup-score_sets scores 60 (codes "c2") sets

reciprocal_rank_fusion_total_example :
    (out : List (Fused ℕ ℕ)) × (ids : List Text) × (reciprocal_rank_fusion scores 60 sets ≡ ok out)
    × Distinct ids
    × ((i : Text) → elem i ids ≡ not (is_empty (all_ranks i sets)))
    × Perm (map some out) (map (result_of scores 60 sets) ids)
    × IsDescending scores out
reciprocal_rank_fusion_total_example = reciprocal_rank_fusion_total scores 60 scores-IsTotal sets

-- A planner that fails, and searches that find something.
abbrev backend : Backend ℕ ℕ
backend = record {
  complete = λ t. raise runtime_error;
  show = λ fs. [];
  create = λ ts. ok (map length ts);
  is_missing = λ n. false;
  query_chunks = λ n k. ok (first ∷ second ∷ []);
  recent_chunks = λ k. ok [];
  query_entities = λ n clause k. ok (second ∷ []);
  query_connections = λ j k. raise query_error;
  query_controls = λ j k. raise query_error;
  query_attributes = λ j k. raise query_error;
}

retrieve-hybrid_example :
    (out : List (Fused ℕ ℕ)) × (retrieve ascii backend scores 60 (codes "who?") 1 (codes "hybrid")
      ≡ ok (fused out))
    × (length out ≤ 1)
    × IsDescending scores out
unfolding vector_search graph_search plan_query hybrid_entity_search store_vector_search
    store_hybrid_search embed_batch clean_text text_eq type_filter get_field
retrieve-hybrid_example =
    retrieve-hybrid ascii backend scores 60 1 (codes "who?") (first ∷ second ∷ []) (second ∷ [])
      scores-IsTotal refl refl

abbrev fields : Fields ℕ
fields = record { text_of = λ n. some (codes "Ada"); document_id_of = λ n. none }
