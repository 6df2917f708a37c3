-- ===== src/Rag/Fusion.antt =====
-- `_reciprocal_rank_fusion` of jenezis/rag/retriever.py. The arithmetic of the floats is a parameter.
pub mod Order
pub mod Sums
pub mod Contents
use jenezis.Prelude.{
  ℕ, suc, ◌+◌, Bool, List, [], ◌∷◌, Option, none, some, elem, keys, lookup, lookup_or, insert, Text,
  Text_eq, Result, ok, raise, ◌>>=◌, runtime_error, if◌then◌else◌,
}
use jenezis.Core.Prompt.Context.{decimal}

-- The floats that the fusion computes with: `reciprocal n` is `1 / n`.
pub record Floats (S : Type 0) : Type 0 where
  pub zero_score : S
  pub add : S → S → S
  pub reciprocal : ℕ → S
  pub leb : S → S → Bool

-- A dict of a search: its `chunk_id`, where it has one, and the rest of it.
pub record Found (D : Type 0) : Type 0 where
  pub chunk_id : Option Text
  pub rest : D

pub record Fused (D S : Type 0) : Type 0 where
  pub doc : Found D
  pub score : S

module _ {D : Type 0} where
  -- `doc.get('chunk_id', str(rank))`
  abbrev pub doc_id : ℕ → Found D → Text
  doc_id rank doc = elim doc.chunk_id [ none ↦ decimal (suc rank) rank [] | some i ↦ i ]

  abbrev pub add_doc : Text → Found D → List (Text × Found D) → List (Text × Found D)
  add_doc i doc docs_by_id =
      if elem i (keys docs_by_id) then docs_by_id else insert i doc docs_by_id

abbrev pub add_score : {S : Type 0} → Floats S → ℕ → Text → ℕ → List (Text × S) → List (Text × S)
add_score floats rrf_k i rank scores =
    insert i (floats.add (lookup_or i floats.zero_score scores) (floats.reciprocal (rrf_k + rank)))
      scores

module _ {D S : Type 0} where
  -- The comprehension over `scores.items()`: a missing document would raise KeyError.
  unfoldable pub fused_results : List (Text × Found D) → List (Text × S) → Result (List (Fused D S))
  fused_results docs_by_id [] = ok []
  fused_results docs_by_id ((i, score) ∷ scores) = elim (lookup i docs_by_id) [
    | none ↦ raise runtime_error
    | some doc ↦ do
      others ← fused_results docs_by_id scores
      ok (record { doc = doc; score = score } ∷ others)
  ]

module _ {D S : Type 0} (floats : Floats S) where
  -- `sorted(..., reverse=True)`, which keeps the order of equal scores.
  unfoldable pub place : Fused D S → List (Fused D S) → List (Fused D S)
  place x [] = x ∷ []
  place x (y ∷ ys) = if floats.leb y.score x.score then x ∷ y ∷ ys else y ∷ place x ys

  unfoldable pub sort : List (Fused D S) → List (Fused D S)
  unfolding place
  sort [] = []
  sort (x ∷ xs) = place x (sort xs)

module _ {D S : Type 0} (floats : Floats S) (rrf_k : ℕ) where
  -- The inner loop, from the rank of its first document.
  unfoldable pub score_results :
      ℕ
      → List (Found D)
      → List (Text × S) × List (Text × Found D)
      → List (Text × S) × List (Text × Found D)
  score_results rank [] state = state
  score_results rank (doc ∷ results) (scores, docs_by_id) = score_results (suc rank) results (
    add_score floats rrf_k (doc_id rank doc) rank scores,
    add_doc (doc_id rank doc) doc docs_by_id,
  )

  -- The outer loop.
  unfoldable pub score_sets :
      List (List (Found D))
      → List (Text × S) × List (Text × Found D)
      → List (Text × S) × List (Text × Found D)
  unfolding score_results
  score_sets [] state = state
  score_sets (results ∷ result_sets) state = score_sets result_sets (score_results 1 results state)

  unfoldable pub reciprocal_rank_fusion : List (List (Found D)) → Result (List (Fused D S))
  unfolding score_sets fused_results sort
  reciprocal_rank_fusion result_sets = do
    let (scores, docs_by_id) = score_sets result_sets ([], [])
    fused ← fused_results docs_by_id scores
    ok (sort floats fused)
