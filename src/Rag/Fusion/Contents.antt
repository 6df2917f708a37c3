-- ===== src/Rag/Fusion/Contents.antt =====
-- The dictionaries of the fusion, described without the loops: the document under an identifier, the
-- identifiers that have a score, and what the comprehension makes of both.
use mathlib.Core.List.{Perm}
use mathlib.Core.List.Perm
use jenezis.Prelude.{
  ℕ, suc, ◌≡◌, refl, ap, ap₂, sym, ◌∙◌, Bool, true, false, not, ◌||◌, Bool-cases, List, [], ◌∷◌,
  map, In, All, All-In, elem, elem_of_In, keys, is_empty, Option, none, some, lookup, lookup-insert,
  lookup_known, lookup_unknown, Distinct, Distinct-insert, Text, Text_eq, text_eq, text_eq_iff,
  ◌==◌, arith, inl, inr, if◌then◌else◌,
}
use jenezis.Rag.Fusion.{
  Floats, Found, Fused, doc_id, add_doc, add_score, score_results, score_sets, place, sort,
}
use jenezis.Rag.Fusion.Sums.{all_ranks, sum_from, lookup-score_sets}

-- The first of two, where it is there.
abbrev or_else {ℓ} : {A : Type ℓ} → Option A → Option A → Option A
or_else none p = p
or_else (some a) p = some a

or_else_assoc : {A : Type 0} (o p q : Option A) → or_else (or_else o p) q ≡ or_else o (or_else p q)
or_else_assoc none p q = refl
or_else_assoc (some a) p q = refl

or_else-none : {A : Type 0} (o : Option A) → or_else o none ≡ o
or_else-none none = refl
or_else-none (some a) = refl

module _ {D : Type 0} where
  -- The first result with the identifier, the rank of the first one of the list being given.
  abbrev pub first_in : Text → ℕ → List (Found D) → Option (Found D)
  first_in i rank [] = none
  first_in i rank (doc ∷ results) =
      let rest = first_in i (suc rank) results in if i == doc_id rank doc then some doc else rest

  abbrev pub first_doc : Text → List (List (Found D)) → Option (Found D)
  first_doc i [] = none
  first_doc i (results ∷ sets) = or_else (first_in i 1 results) (first_doc i sets)

  lookup-add_doc :
      (i j : Text) (doc : Found D) (docs : List (Text × Found D))
      → lookup i (add_doc j doc docs)
        ≡ or_else (lookup i docs) (if text_eq i j then some doc else none)
  lookup-add_doc i j doc docs = elim (Bool-cases (elem j (keys docs))) [
    | inl known ↦ rw known (kept (lookup_known j docs known))
    | inr new ↦ rw new (lookup-insert j i doc docs ∙ added new)
  ]
    where
      kept :
          (v : Found D) × (lookup j docs ≡ some v)
          → lookup i docs ≡ or_else (lookup i docs) (if text_eq i j then some doc else none)
      kept (v, f) = elim (Bool-cases (text_eq i j)) [
        | inl same ↦ rw (same, (text_eq_iff i j).0 same, f) refl
        | inr other ↦ rw other (sym (or_else-none (lookup i docs)))
      ]

      added :
          elem j (keys docs) ≡ false
          → (if text_eq i j then some doc else lookup i docs)
            ≡ or_else (lookup i docs) (if text_eq i j then some doc else none)
      added new = elim (Bool-cases (text_eq i j)) [
        | inl same ↦ rw (same, (text_eq_iff i j).0 same, lookup_unknown j docs new) refl
        | inr other ↦ rw other (sym (or_else-none (lookup i docs)))
      ]

module _ {D S : Type 0} (floats : Floats S) (rrf_k : ℕ) where
  lookup-score_results_docs :
      (i : Text) (rank : ℕ) (results : List (Found D))
      (state : List (Text × S) × List (Text × Found D))
      → lookup i (score_results floats rrf_k rank results state).1
        ≡ or_else (lookup i state.1) (first_in i rank results)
  unfolding score_results
  lookup-score_results_docs i rank [] state = sym (or_else-none (lookup i state.1))
  lookup-score_results_docs i rank (doc ∷ results) (scores, docs) =
      lookup-score_results_docs i (suc rank) results
        (add_score floats rrf_k (doc_id rank doc) rank scores, add_doc (doc_id rank doc) doc docs)
      ∙ ap (λ o. or_else o (first_in i (suc rank) results))
          (lookup-add_doc i (doc_id rank doc) doc docs)
      ∙ or_else_assoc (lookup i docs) _ (first_in i (suc rank) results)
      ∙ elim (Bool-cases (text_eq i (doc_id rank doc))) [
        | inl same ↦ rw same refl
        | inr other ↦ rw other refl
      ]

  lookup-score_sets_docs :
      (i : Text) (sets : List (List (Found D))) (state : List (Text × S) × List (Text × Found D))
      → lookup i (score_sets floats rrf_k sets state).1
        ≡ or_else (lookup i state.1) (first_doc i sets)
  unfolding score_sets
  lookup-score_sets_docs i [] state = sym (or_else-none (lookup i state.1))
  lookup-score_sets_docs i (results ∷ sets) state =
      lookup-score_sets_docs i sets (score_results floats rrf_k 1 results state)
      ∙ ap (λ o. or_else o (first_doc i sets)) (lookup-score_results_docs i 1 results state)
      ∙ or_else_assoc (lookup i state.1) (first_in i 1 results) (first_doc i sets)

  score_results-Distinct :
      (rank : ℕ) (results : List (Found D)) (state : List (Text × S) × List (Text × Found D))
      → Distinct (keys state.0)
      → Distinct (keys (score_results floats rrf_k rank results state).0)
  unfolding score_results
  score_results-Distinct rank [] state h = h
  score_results-Distinct rank (doc ∷ results) (scores, docs) h =
      score_results-Distinct (suc rank) results _ (Distinct-insert (doc_id rank doc) _ scores h)

  pub score_sets-Distinct :
      (sets : List (List (Found D))) (state : List (Text × S) × List (Text × Found D))
      → Distinct (keys state.0)
      → Distinct (keys (score_sets floats rrf_k sets state).0)
  unfolding score_sets
  score_sets-Distinct [] state h = h
  score_sets-Distinct (results ∷ sets) state h =
      score_sets-Distinct sets (score_results floats rrf_k 1 results state)
        (score_results-Distinct 1 results state h)

-- A dictionary has a key where it has a value under it.
abbrev is_some {ℓ} : {A : Type ℓ} → Option A → Bool
is_some none = false
is_some (some a) = true

elem-keys-eq :
    {V : Type 0} (i : Text) (m : List (Text × V)) → elem i (keys m) ≡ is_some (lookup i m)
elem-keys-eq i [] = refl
elem-keys-eq i ((j, v) ∷ m) = ground (arith, elem-keys-eq i m)

In-keys : {V : Type 0} (p : Text × V) (m : List (Text × V)) → In p m → In p.0 (keys m)
In-keys p [] h = elim h [ ]
In-keys p (q ∷ m) (inl e) = inl (ap (λ z. z.0) e)
In-keys p (q ∷ m) (inr h) = inr (In-keys p m h)

map-ext : {A B : Type 0} (f g : A → B) (xs : List A) → ((a : A) → f a ≡ g a) → map f xs ≡ map g xs
map-ext f g [] h = refl
map-ext f g (x ∷ xs) h = ap₂ (◌∷◌) (h x) (map-ext f g xs h)

lookup-In :
    {V : Type 0} (p : Text × V) (m : List (Text × V))
    → Distinct (keys m)
    → In p m
    → lookup p.0 m ≡ some p.1
lookup-In p [] d h = elim h [ ]
lookup-In p ((j, v) ∷ m) d (inl e) =
    rw (ap (λ q. q.0) e, ap (λ q. q.1) e, (text_eq_iff j j).1 refl) refl
lookup-In p ((j, v) ∷ m) d (inr h) =
    ground
      (arith, lookup-In p m d.1 h, text_eq_iff p.0 j, elem_of_In p.0 (keys m) (In-keys p m h), d.0)

module _ {D S : Type 0} where
  -- A result of a document and a score.
  abbrev pub combine : Option (Found D) → Option S → Option (Fused D S)
  combine none score = none
  combine (some doc) none = none
  combine (some doc) (some score) = some (record { doc = doc; score = score })

  combine-keys :
      (docs : List (Text × Found D)) (all : List (Text × S)) (scores : List (Text × S))
      → All (λ p. lookup p.0 all ≡ some p.1) scores
      → map (λ p. combine (lookup p.0 docs) (some p.1)) scores
        ≡ map (λ i. combine (lookup i docs) (lookup i all)) (keys scores)
  combine-keys docs all [] h = refl
  combine-keys docs all (p ∷ scores) h =
      ap₂ (◌∷◌) (ap (combine (lookup p.0 docs)) (sym h.0)) (combine-keys docs all scores h.1)

module _ {D S : Type 0} (floats : Floats S) where
  place-perm : (x : Fused D S) (xs : List (Fused D S)) → Perm (place floats x xs) (x ∷ xs)
  unfolding place
  place-perm x [] = Perm.rfl
  place-perm x (y ∷ ys) = elim (Bool-cases (floats.leb y.score x.score)) [
    | inl below ↦ rw below Perm.rfl
    | inr above ↦ rw above (Perm.trans (Perm.cons y (place-perm x ys)) (Perm.swap x y ys))
  ]

  pub sort-perm : (xs : List (Fused D S)) → Perm (sort floats xs) xs
  unfolding sort
  sort-perm [] = Perm.rfl
  sort-perm (x ∷ xs) = Perm.trans (place-perm x (sort floats xs)) (Perm.cons x (sort-perm xs))

module _ {D S : Type 0} (floats : Floats S) (rrf_k : ℕ) (sets : List (List (Found D))) where
  -- The result for an identifier: its first document, with the sum of `1 / (k + rank)` over its ranks.
  abbrev pub result_of : Text → Option (Fused D S)
  result_of i = combine (first_doc i sets) (sum_from floats rrf_k none (all_ranks i sets))

  abbrev scores : List (Text × S)
  scores = (score_sets floats rrf_k sets ([], [])).0

  sum_from-is_some :
      (o : Option S) (ranks : List ℕ)
      → is_some (sum_from floats rrf_k o ranks) ≡ (is_some o || not (is_empty ranks))
  sum_from-is_some none [] = refl
  sum_from-is_some (some s) [] = refl
  sum_from-is_some none (rank ∷ ranks) = sum_from-is_some (some _) ranks
  sum_from-is_some (some s) (rank ∷ ranks) = sum_from-is_some (some _) ranks

  -- The scored identifiers are those that occur in the lists.
  pub scored-eq : (i : Text) → elem i (keys scores) ≡ not (is_empty (all_ranks i sets))
  scored-eq i =
      elem-keys-eq i scores
      ∙ ap is_some (lookup-score_sets floats rrf_k i sets)
      ∙ sum_from-is_some none (all_ranks i sets)

  pub combine-result_of :
      map (λ p. combine (lookup p.0 (score_sets floats rrf_k sets ([], [])).1) (some p.1)) scores
      ≡ map result_of (keys scores)
  combine-result_of =
      combine-keys (score_sets floats rrf_k sets ([], [])).1 scores scores (
        All-In _ scores
          (λ p h. lookup-In p scores (score_sets-Distinct floats rrf_k sets ([], []) tt) h))
      ∙ map-ext _ _ (keys scores) (λ i.
        ap₂ combine (lookup-score_sets_docs floats rrf_k i sets ([], []))
          (lookup-score_sets floats rrf_k i sets))
