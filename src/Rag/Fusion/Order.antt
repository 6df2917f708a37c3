-- ===== src/Rag/Fusion/Order.antt =====
-- The fusion returns, in the order of the scores.
use mathlib.Core.List.{Perm}
use mathlib.Core.List.Perm
use jenezis.Prelude.{
  ap₂, subst, not, is_empty, map, lookup, some, Distinct, ℕ, suc, ◌≡◌, refl, sym, ◌∙◌, true, false,
  Bool-cases, List, [], ◌∷◌, All, All-map, elem, keys, elem-keys-insert, lookup_known, Text,
  Text_eq, text_eq_iff, ok, arith, inl, inr,
}
use jenezis.Rag.Fusion.Sums.{all_ranks}
use jenezis.Rag.Fusion.Contents.{
  combine, sort-perm, score_sets-Distinct, result_of, scored-eq, combine-result_of,
}
use jenezis.Rag.Fusion.{
  Floats, Found, Fused, doc_id, add_doc, add_score, score_results, score_sets, fused_results, place,
  sort, reciprocal_rank_fusion,
}

-- The comparison of scores is total and transitive.
abbrev pub IsTotal : {S : Type 0} → Floats S → Type 0
IsTotal {S} floats =
    ((a b : S) → floats.leb a b ≡ false → floats.leb b a ≡ true)
    × ((a b c : S) → floats.leb a b ≡ true → floats.leb b c ≡ true → floats.leb a c ≡ true)

All-own_keys :
    {S : Type 0} (scores : List (Text × S)) → All (λ p. elem p.0 (keys scores) ≡ true) scores
All-own_keys [] = tt
All-own_keys ((i, s) ∷ scores) = (
  ground (arith, text_eq_iff i i),
  All-map _ _ (λ p h. ground (arith, h)) scores (All-own_keys scores),
)

module _ {D S : Type 0} where
  -- The loop adds the same keys to both dictionaries.
  abbrev pub SameKeys : List (Text × S) × List (Text × Found D) → Type 0
  SameKeys (scores, docs) = (i : Text) → elem i (keys scores) ≡ elem i (keys docs)

  -- The comprehension returns the result of every score, in their order.
  fused_results_total :
      (docs : List (Text × Found D)) (scores : List (Text × S))
      → All (λ p. elem p.0 (keys docs) ≡ true) scores
      → (fused : List (Fused D S)) × (fused_results docs scores ≡ ok fused)
        × (map some fused ≡ map (λ p. combine (lookup p.0 docs) (some p.1)) scores)
  unfolding fused_results
  fused_results_total docs [] h = ([], refl, refl)
  fused_results_total docs ((i, s) ∷ scores) h =
      let (doc, f) = lookup_known i docs h.0 in
      let (fused, g, n) = fused_results_total docs scores h.1 in
      let result : Fused D S = record { doc = doc; score = s } in
      let here : some result ≡ combine (lookup i docs) (some s) = rw f refl in
      (result ∷ fused, rw (fused_results, f, g) refl, ap₂ (◌∷◌) here n)

module _ {D S : Type 0} (floats : Floats S) where
  -- Each score is at least every later one.
  abbrev pub IsDescending : List (Fused D S) → Type 0
  IsDescending [] = Unit
  IsDescending (x ∷ xs) = All (λ y. floats.leb y.score x.score ≡ true) xs × IsDescending xs

  place-All :
      (P : Fused D S → Type 0) (x : Fused D S) (xs : List (Fused D S))
      → P x
      → All P xs
      → All P (place floats x xs)
  unfolding place
  place-All P x [] p h = (p, tt)
  place-All P x (y ∷ ys) p h = elim (Bool-cases (floats.leb y.score x.score)) [
    | inl below ↦ rw below (p, h)
    | inr above ↦ rw above (h.0, place-All P x ys p h.1)
  ]

  place-IsDescending :
      IsTotal floats
      → (x : Fused D S) (xs : List (Fused D S)) → IsDescending xs
      → IsDescending (place floats x xs)
  unfolding place
  place-IsDescending total x [] h = (tt, tt)
  place-IsDescending total x (y ∷ ys) h = elim (Bool-cases (floats.leb y.score x.score)) [
    | inl below ↦
        rw below ((below, All-map _ _ (λ z k. total.1 z.score y.score x.score k below) ys h.0), h)
    | inr above ↦
        rw above
          (place-All _ x ys (total.0 y.score x.score above) h.0, place-IsDescending total x ys h.1)
  ]

  sort-IsDescending : IsTotal floats → (xs : List (Fused D S)) → IsDescending (sort floats xs)
  unfolding sort
  sort-IsDescending total [] = tt
  sort-IsDescending total (x ∷ xs) =
      place-IsDescending total x (sort floats xs) (sort-IsDescending total xs)

module _ {D S : Type 0} (floats : Floats S) (rrf_k : ℕ) where
  add-SameKeys :
      (i : Text) (doc : Found D) (rank : ℕ) (scores : List (Text × S))
      (docs : List (Text × Found D))
      → SameKeys (scores, docs)
      → SameKeys (add_score floats rrf_k i rank scores, add_doc i doc docs)
  add-SameKeys i doc rank scores docs h j = elim (Bool-cases (elem i (keys docs))) [
    | inl known ↦
        rw known (elem-keys-insert i j _ scores ∙ ground (arith, h i, h j, text_eq_iff j i))
    | inr new ↦ rw new (
        elem-keys-insert i j _ scores
        ∙ ground (arith, h j, elem-keys-insert i j doc docs, text_eq_iff j i))
  ]

  score_results-SameKeys :
      (rank : ℕ) (results : List (Found D)) (state : List (Text × S) × List (Text × Found D))
      → SameKeys state
      → SameKeys (score_results floats rrf_k rank results state)
  unfolding score_results
  score_results-SameKeys rank [] state h = h
  score_results-SameKeys rank (doc ∷ results) (scores, docs) h =
      score_results-SameKeys (suc rank) results _
        (add-SameKeys (doc_id rank doc) doc rank scores docs h)

  score_sets-SameKeys :
      (sets : List (List (Found D))) (state : List (Text × S) × List (Text × Found D))
      → SameKeys state
      → SameKeys (score_sets floats rrf_k sets state)
  unfolding score_sets
  score_sets-SameKeys [] state h = h
  score_sets-SameKeys (results ∷ sets) state h =
      score_sets-SameKeys sets (score_results floats rrf_k 1 results state)
        (score_results-SameKeys 1 results state h)

  -- Where the comparison of scores is total and transitive, the fusion returns: no document that has
  -- a score is missing. Its results are, in descending order of the scores, one for each identifier that
  -- occurs in the lists: the first document with the identifier, under the sum of `1 / (k + rank)` over
  -- the ranks of the identifier.
  pub reciprocal_rank_fusion_total :
      IsTotal floats
      → (sets : List (List (Found D)))
      → (out : List (Fused D S)) × (ids : List Text) × (reciprocal_rank_fusion floats rrf_k sets
          ≡ ok out)
        × Distinct ids
        × ((i : Text) → elem i ids ≡ not (is_empty (all_ranks i sets)))
        × Perm (map some out) (map (result_of floats rrf_k sets) ids)
        × IsDescending floats out
  unfolding reciprocal_rank_fusion
  reciprocal_rank_fusion_total total sets =
      let state = score_sets floats rrf_k sets ([], []) in
      let same = score_sets-SameKeys sets ([], []) (λ i. refl) in
      let (fused, f, n) =
        fused_results_total state.1 state.0
          (All-map _ _ (λ p h. sym (same p.0) ∙ h) state.0 (All-own_keys state.0)) in
      (
        sort floats fused,
        keys state.0,
        rw (reciprocal_rank_fusion, f) refl,
        score_sets-Distinct floats rrf_k sets ([], []) tt,
        scored-eq floats rrf_k sets,
        subst (Perm (map some (sort floats fused))) (n ∙ combine-result_of floats rrf_k sets)
            (Perm.map some (sort-perm floats fused)),
        sort-IsDescending floats total fused,
      )
