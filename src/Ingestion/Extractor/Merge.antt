-- ===== src/Ingestion/Extractor/Merge.antt =====
-- How the results of the chunks are put together.
use jenezis.Prelude.{
  ◌≡◌, refl, ap, ◌∙◌, sym, false, List, [], ◌∷◌, ◌++◌, map, elem, Option, none, some, Text, Text_eq,
  text_eq_iff, subst, lookup_known, lookup, insert, lookup-insert, keys, Distinct, Distinct-insert,
  ◌==◌, arith, Bool-cases, inl, inr, In, In-append, In-append_left, In-append_right, ◌↔◌,
  if◌then◌else◌,
}
use jenezis.Ingestion.Records.{Entity, Relation}
use jenezis.Ingestion.Extractor.{
  ExtractionResult, ExtractedRelation, TextChunk, tag, add_entities, merge_results,
}

-- The first entity of an identifier.
pub first_with : Text → List Entity → Option Entity
first_with i [] = none
first_with i (e ∷ es) = if i == e.id then some e else first_with i es

-- `some` of the left where there is one.
abbrev pub or_else : Option Entity → Option Entity → Option Entity
or_else none o = o
or_else (some e) o = some e

lookup-elem : (i : Text) (m : List (Text × Entity)) → elem i (keys m) ≡ false → lookup i m ≡ none
lookup-elem i [] h = refl
lookup-elem i ((j, e) ∷ m) h = ground (arith, text_eq_iff i j, lookup-elem i m)

lookup-add_entities :
    (i : Text) (m : List (Text × Entity)) (es : List Entity)
    → lookup i (add_entities m es) ≡ or_else (lookup i m) (first_with i es)
unfolding add_entities first_with
lookup-add_entities i m [] = ground arith
lookup-add_entities i m (e ∷ es) = elim (Bool-cases (elem e.id (keys m))) [
  | inl known ↦
      let (e', f) = lookup_known e.id m known in
      rw known (lookup-add_entities i m es ∙ ground (arith, text_eq_iff i e.id))
  | inr new ↦ rw new (
      lookup-add_entities i (insert e.id e m) es
      ∙ ground (arith, lookup-insert e.id i e m, lookup-elem e.id m new, text_eq_iff i e.id))
]

Distinct-add_entities :
    (m : List (Text × Entity)) (es : List Entity)
    → Distinct (keys m)
    → Distinct (keys (add_entities m es))
unfolding add_entities
Distinct-add_entities m [] h = h
Distinct-add_entities m (e ∷ es) h = elim (Bool-cases (elem e.id (keys m))) [
  | inl known ↦ rw known (Distinct-add_entities m es h)
  | inr new ↦ rw new (Distinct-add_entities (insert e.id e m) es (Distinct-insert e.id e m h))
]

-- All entities of the results, in order.
abbrev pub all_entities : List (TextChunk × ExtractionResult) → List Entity
all_entities [] = []
all_entities ((chunk, result) ∷ results) = result.entities ++ all_entities results

first_with-append :
    (i : Text) (xs ys : List Entity)
    → first_with i (xs ++ ys) ≡ or_else (first_with i xs) (first_with i ys)
unfolding first_with
first_with-append i [] ys = refl
first_with-append i (x ∷ xs) ys = ground (arith, first_with-append i xs ys)

or_else_assoc : (a b c : Option Entity) → or_else (or_else a b) c ≡ or_else a (or_else b c)
or_else_assoc none b c = refl
or_else_assoc (some a) b c = refl

or_else-none : (o : Option Entity) → o ≡ or_else o none
or_else-none none = refl
or_else-none (some e) = refl

-- The merged dictionary has no identifier twice, if the one that the loop starts with has none, and
-- holds under each identifier what that one holds, or else the first entity that any chunk gave.
pub merge_results-first_with :
    (m : List (Text × Entity)) (results : List (TextChunk × ExtractionResult))
    → Distinct (keys m)
    → Distinct (keys (merge_results m results).0)
      × ((i : Text)
          → lookup i (merge_results m results).0
            ≡ or_else (lookup i m) (first_with i (all_entities results)))
unfolding merge_results first_with
merge_results-first_with m [] h = (h, λ i. or_else-none (lookup i m))
merge_results-first_with m ((chunk, result) ∷ results) h =
    let (d, same) =
      merge_results-first_with (add_entities m result.entities) results
        (Distinct-add_entities m result.entities h) in
    (
      d,
      λ i.
          same i
          ∙ ap (λ o. or_else o (first_with i (all_entities results)))
              (lookup-add_entities i m result.entities)
          ∙ or_else_assoc (lookup i m) (first_with i result.entities)
              (first_with i (all_entities results))
          ∙ ap (or_else (lookup i m))
              (sym (first_with-append i result.entities (all_entities results))),
    )

In-map :
    (f : ExtractedRelation → Relation Text) (r : Relation Text) (qs : List ExtractedRelation)
    → In r (map f qs) ↔ ((q : ExtractedRelation) × In q qs × (r ≡ f q))
In-map f r [] = (λ h. elim h [ ], λ (q, h, _). elim h [ ])
In-map f r (x ∷ xs) = (
  λ h. elim h [
    | inl e ↦ (x, inl refl, e)
    | inr t ↦ let (q, m, e) = (In-map f r xs).0 t in (q, inr m, e)
  ],
  λ (q, m, e). elim m [ inl s ↦ inl (e ∙ ap f s) | inr t ↦ inr ((In-map f r xs).1 (q, t, e)) ],
)

-- What a merged relation comes from.
abbrev pub IsTagged : List (TextChunk × ExtractionResult) → Relation Text → Type 0
IsTagged results r =
    (chunk : TextChunk) × (result : ExtractionResult) × (q : ExtractedRelation) × In (chunk, result)
      results
    × In q result.relations
    × (r ≡ tag chunk.id q)

-- The merged relations are those of the results, each with the identifier of its chunk.
pub merge_results-relations :
    (m : List (Text × Entity)) (results : List (TextChunk × ExtractionResult)) (r : Relation Text)
    → In r (merge_results m results).1 ↔ IsTagged results r
unfolding merge_results
merge_results-relations m [] r = (λ h. elim h [ ], λ (_, _, _, h, _, _). elim h [ ])
merge_results-relations m ((chunk, result) ∷ results) r =
    let rest = merge_results-relations (add_entities m result.entities) results r in
    let own = In-map (tag chunk.id) r result.relations in
    let tail = (merge_results (add_entities m result.entities) results).1 in
    (
      λ h. elim (In-append r (map (tag chunk.id) result.relations) tail h) [
        | inl l ↦ let (q, k, e) = own.0 l in (chunk, result, q, inl refl, k, e)
        | inr t ↦ let (c, s, q, k, n, e) = rest.0 t in (c, s, q, inr k, n, e)
      ],
      λ (c, s, q, k, n, e). elim k [
        | inl p ↦
            In-append_left r (map (tag chunk.id) result.relations) tail
              (own.1 (q, subst (λ z. In q z.1.relations) p n, e ∙ ap (λ z. tag z.0.id q) p))
        | inr t ↦
            In-append_right r (map (tag chunk.id) result.relations) tail (rest.1 (c, s, q, t, n, e))
      ],
    )
