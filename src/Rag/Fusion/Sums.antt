-- ===== src/Rag/Fusion/Sums.antt =====
-- The score of an identifier, described without the loops.
use jenezis.Prelude.{
  ℕ, suc, ◌+◌, ◌≡◌, refl, ap, sym, ◌∙◌, Bool-cases, List, [], ◌∷◌, ◌++◌, Option, none, some, lookup,
  lookup-insert, Text, Text_eq, text_eq, text_eq_iff, ◌==◌, inl, inr, if◌then◌else◌,
}
use jenezis.Rag.Fusion.{Floats, Found, doc_id, add_doc, add_score, score_results, score_sets}

module _ {D : Type 0} where
  -- The ranks at which an identifier occurs in a list of results, whose first rank is given.
  abbrev pub ranks_of : Text → ℕ → List (Found D) → List ℕ
  ranks_of i rank [] = []
  ranks_of i rank (doc ∷ results) =
      let rest = ranks_of i (suc rank) results in if i == doc_id rank doc then rank ∷ rest else rest

  abbrev pub all_ranks : Text → List (List (Found D)) → List ℕ
  all_ranks i [] = []
  all_ranks i (results ∷ sets) = ranks_of i 1 results ++ all_ranks i sets

module _ {S : Type 0} (floats : Floats S) (rrf_k : ℕ) where
  abbrev pub add_rank : Option S → ℕ → S
  add_rank o rank =
      floats.add (elim o [ none ↦ floats.zero_score | some v ↦ v ])
        (floats.reciprocal (rrf_k + rank))

  -- The sum of `1 / (k + rank)` over the ranks, onto a score that may be missing.
  abbrev pub sum_from : Option S → List ℕ → Option S
  sum_from o [] = o
  sum_from o (rank ∷ ranks) = sum_from (some (add_rank o rank)) ranks

  sum_from-append :
      (o : Option S) (xs ys : List ℕ) → sum_from o (xs ++ ys) ≡ sum_from (sum_from o xs) ys
  sum_from-append o [] ys = refl
  sum_from-append o (x ∷ xs) ys = sum_from-append (some (add_rank o x)) xs ys

  lookup-add_score :
      (i j : Text) (rank : ℕ) (scores : List (Text × S))
      → lookup i (add_score floats rrf_k j rank scores)
        ≡ (if text_eq i j then some (add_rank (lookup i scores) rank) else lookup i scores)
  lookup-add_score i j rank scores = lookup-insert j i _ scores ∙ elim (Bool-cases (text_eq i j)) [
    | inl same ↦
        rw same (ap (λ z. some (add_rank (lookup z scores) rank)) (sym ((text_eq_iff i j).0 same)))
    | inr other ↦ rw other refl
  ]

module _ {D S : Type 0} (floats : Floats S) (rrf_k : ℕ) where
  lookup-score_results :
      (i : Text) (rank : ℕ) (results : List (Found D))
      (state : List (Text × S) × List (Text × Found D))
      → lookup i (score_results floats rrf_k rank results state).0
        ≡ sum_from floats rrf_k (lookup i state.0) (ranks_of i rank results)
  unfolding score_results
  lookup-score_results i rank [] state = refl
  lookup-score_results i rank (doc ∷ results) (scores, docs) =
      lookup-score_results i (suc rank) results
        (add_score floats rrf_k (doc_id rank doc) rank scores, add_doc (doc_id rank doc) doc docs)
      ∙ ap (λ o. sum_from floats rrf_k o (ranks_of i (suc rank) results))
          (lookup-add_score floats rrf_k i (doc_id rank doc) rank scores)
      ∙ elim (Bool-cases (text_eq i (doc_id rank doc))) [
        | inl same ↦ rw same refl
        | inr other ↦ rw other refl
      ]

  lookup-score_sets_from :
      (i : Text) (sets : List (List (Found D))) (state : List (Text × S) × List (Text × Found D))
      → lookup i (score_sets floats rrf_k sets state).0
        ≡ sum_from floats rrf_k (lookup i state.0) (all_ranks i sets)
  unfolding score_sets
  lookup-score_sets_from i [] state = refl
  lookup-score_sets_from i (results ∷ sets) state =
      lookup-score_sets_from i sets (score_results floats rrf_k 1 results state)
      ∙ ap (λ o. sum_from floats rrf_k o (all_ranks i sets))
          (lookup-score_results i 1 results state)
      ∙ sym (
          sum_from-append floats rrf_k (lookup i state.0) (ranks_of i 1 results) (all_ranks i sets))

  -- The score of an identifier is the sum, over the lists in their order, of `1 / (k + rank)` for each
  -- rank at which the identifier occurs; an identifier that occurs nowhere has none.
  pub lookup-score_sets :
      (i : Text) (sets : List (List (Found D)))
      → lookup i (score_sets floats rrf_k sets ([], [])).0
        ≡ sum_from floats rrf_k none (all_ranks i sets)
  lookup-score_sets i sets = lookup-score_sets_from i sets ([], [])
