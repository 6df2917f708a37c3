-- ===== src/Rag/Retriever/Routes.antt =====
-- What the plan of a query may be, and what the retrieval returns.
use jenezis.Prelude.{
  ℕ, ◌≤◌, ◌*◌, ◌≡◌, refl, ◌⊎◌, inl, inr, false, Bool-cases, List, [], ◌∷◌, ◌++◌, In, take, length,
  length-take, All, is_empty, some, Text, Text_eq, codes, zero, suc, text_eq, Json, str, Fields,
  end, Result-cases, ok, arith,
}
use jenezis.Core.Unicode.{Unicode}
use jenezis.Core.Prompt.Output.{Plan, is_dangerous}
use jenezis.Storage.Labels.{sanitize_label, type_filter}
use jenezis.Rag.Fusion.{Floats, Found, Fused}
use jenezis.Rag.Fusion.Order.{IsTotal, IsDescending, reciprocal_rank_fusion_total}
use jenezis.Rag.Retriever.{
  Backend, fused, allowed_intents, entity_type_of, vector_search, graph_search, retrieve,
}

-- Whatever the planner's parameters hold under `entity_type`, the type that is read from it is one for
-- which the search's filter clause is built without an exception.
pub type_filter-entity_type_of :
    (j : Json) → (clause : Text) × (type_filter (entity_type_of j) ≡ ok clause)
unfolding type_filter
type_filter-entity_type_of (str t) = elim (Bool-cases (is_empty t)) [
  | inl empty ↦ ([], rw empty refl)
  | inr full ↦ elim (Result-cases (sanitize_label t)) [
    | inl (clean, f) ↦
        (codes "WHERE node.type = '" ++ (t ++ codes "'"), rw (full, f, type_filter, full, f) refl)
    | inr (error, f) ↦ ([], rw (full, f) refl)
  ]
]
type_filter-entity_type_of _ = ([], refl)

module _ {D E : Type 0} (u : Unicode) (backend : Backend D E) where
  -- An intent of the list, and parameters that are empty or hold no dangerous text.
  abbrev pub IsAllowed : Plan → Type 0
  IsAllowed plan =
      ((j : Json) → plan.intent ≡ some j → (t : Text) × (j ≡ str t) × In t allowed_intents)
      × ((fs : Fields)
          → plan.parameters ≡ some fs
          → (fs ≡ end) ⊎ (is_dangerous u backend.show fs ≡ false))

take-All : {A : Type 0} (P : A → Type 0) (n : ℕ) (xs : List A) → All P xs → All P (take n xs)
take-All P zero xs h = tt
take-All P (suc n) [] h = tt
take-All P (suc n) (x ∷ xs) h = (h.0, take-All P n xs h.1)

take-IsDescending :
    {D S : Type 0} (floats : Floats S) (n : ℕ) (xs : List (Fused D S))
    → IsDescending floats xs
    → IsDescending floats (take n xs)
take-IsDescending floats zero xs h = tt
take-IsDescending floats (suc n) [] h = tt
take-IsDescending floats (suc n) (x ∷ xs) h =
    (take-All _ n xs h.0, take-IsDescending floats n xs h.1)

-- Where the comparison of scores is total and transitive and both searches return, the hybrid
-- retrieval returns at most `top_k` results, in descending order of their scores.
pub retrieve-hybrid :
    {D E S : Type 0} (u : Unicode) (backend : Backend D E) (floats : Floats S) (rrf_k top_k : ℕ)
    (query : Text)
    → (vector_results graph_results : List (Found D)) → IsTotal floats
    → vector_search u backend query (top_k * 2) ≡ ok vector_results
    → graph_search u backend query (top_k * 2) ≡ ok graph_results
    → (out : List (Fused D S)) × (retrieve u backend floats rrf_k query top_k (codes "hybrid")
        ≡ ok (fused out))
      × (length out ≤ top_k)
      × IsDescending floats out
unfolding retrieve text_eq
retrieve-hybrid u backend floats rrf_k top_k query vs gs total v g =
    let (all', _, f, _, _, _, d) = reciprocal_rank_fusion_total floats rrf_k total (vs ∷ gs ∷ []) in
    (
      take top_k all',
      rw (retrieve, v, g, f) refl,
      omega (arith, length-take top_k all'),
      take-IsDescending floats top_k all' d,
    )
