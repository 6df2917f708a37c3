-- ===== src/Storage/Graph/Deletion.antt =====
-- What the two deletions of the engine leave, and that they keep the graph well formed.
use jenezis.Prelude.{
  ℕ, ◌+◌, ◌≡◌, ◌↔◌, refl, ap, Text, In-filter, filter-In, In-of_elem, ◌∙◌, Bool, true, not, ◌&&◌,
  List, [], ◌∷◌, All-filter, All-In, In-All, filter, length, elem, In, elem_of_In, Text_eq, ℕ_eq,
  keys, values, Distinct-filter, elem-keys-filter, ◌==◌, Eq, arith, inl, inr,
}
use jenezis.Storage.Rows.{Value, Value_eq}
use jenezis.Storage.Graph.{Graph, EntityProps, Pair_eq}
use jenezis.Storage.Graph.Engine.{
  delete_chunks, delete_document_node, delete_document, is_mentioned, garbage_collect_orphans,
}
use jenezis.Storage.Graph.Invariant.{IsWellFormed}

In-values : {A B : Type 0} (m : A × B) (ms : List (A × B)) → In m ms → In m.1 (values ms)
In-values m [] h = elim h [ ]
In-values m (n ∷ ms) (inl e) = inl (ap (λ z. z.1) e)
In-values m (n ∷ ms) (inr h) = inr (In-values m ms h)

values-In : {A B : Type 0} (b : B) (ms : List (A × B)) → In b (values ms) → (a : A) × In (a, b) ms
values-In b [] h = elim h [ ]
values-In b ((a, c) ∷ ms) (inl e) = (a, inl (ap (λ z. (a, z)) e))
values-In b (n ∷ ms) (inr h) = let (a, m) = values-In b ms h in (a, inr m)

length-filter-not :
    {A : Type 0} (t : A → Bool) (xs : List A)
    → length (filter t xs) + length (filter (λ x. not (t x)) xs) ≡ length xs
length-filter-not t [] = refl
length-filter-not t (x ∷ xs) = ground (arith, length-filter-not t xs)

filter-filter-not :
    {A : Type 0} (t : A → Bool) (xs : List A) → filter (λ x. not (t x)) (filter t xs) ≡ []
filter-filter-not t [] = refl
filter-filter-not t (x ∷ xs) = ground (arith, filter-filter-not t xs)

module _ {O : Type 0} ⦃e : Eq O⦄ where
  delete_chunks-IsWellFormed :
      (id : ℕ) (g : Graph O) → IsWellFormed g → IsWellFormed (delete_chunks id g)
  unfolding delete_chunks
  delete_chunks-IsWellFormed id g w =
      let kept : Value O → Bool = λ c. not (elem (id, c) g.has_chunk) in
      let known : (c : Value O)
          → elem c (keys g.chunks) ≡ true
          → kept c ≡ true
          → elem c (keys (filter (λ p. kept p.0) g.chunks)) ≡ true =
        λ c h k. elem-keys-filter kept c g.chunks ∙ ground (arith, h, k) in
      record {
        documents_Distinct = w.documents_Distinct;
        chunks_Distinct = Distinct-filter kept g.chunks w.chunks_Distinct;
        entities_Distinct = w.entities_Distinct;
        has_chunk_ends =
            All-filter _ _ _ (λ h p k. (p.0, known h.1 p.1 k)) g.has_chunk w.has_chunk_ends;
        mentions_ends =
            All-filter _ _ _ (λ m p k. (known m.0 p.0 k, p.1)) g.mentions w.mentions_ends;
        relations_ends = w.relations_ends;
      }

  delete_document_node-IsWellFormed :
      (id : ℕ) (g : Graph O) → IsWellFormed g → IsWellFormed (delete_document_node id g)
  unfolding delete_document_node
  delete_document_node-IsWellFormed id g w =
      let kept : ℕ → Bool = λ d. not (d == id) in
      record {
        documents_Distinct = Distinct-filter kept g.documents w.documents_Distinct;
        chunks_Distinct = w.chunks_Distinct;
        entities_Distinct = w.entities_Distinct;
        has_chunk_ends =
            All-filter _ _ _
              (λ h p k. (elem-keys-filter kept h.0 g.documents ∙ ground (arith, p.0, k), p.1))
              g.has_chunk w.has_chunk_ends;
        mentions_ends = w.mentions_ends;
        relations_ends = w.relations_ends;
      }

  -- The deletion of a document keeps a well-formed graph well formed.
  pub delete_document-IsWellFormed :
      (id : ℕ) (g : Graph O) → IsWellFormed g → IsWellFormed (delete_document id g)
  unfolding delete_document
  delete_document-IsWellFormed id g w =
      delete_document_node-IsWellFormed id (delete_chunks id g) (delete_chunks-IsWellFormed id g w)

  -- A deletion keeps every document but the one that is named, every chunk but those that the
  -- document has, and all entities and relations between them.
  pub delete_document-left :
      (id : ℕ) (g : Graph O)
      → ((d : ℕ)
          → elem d (keys (delete_document id g).documents)
            ≡ (elem d (keys g.documents) && not (d == id)))
        × ((c : Value O)
            → elem c (keys (delete_document id g).chunks)
              ≡ (elem c (keys g.chunks) && not (elem (id, c) g.has_chunk)))
        × ((delete_document id g).entities ≡ g.entities)
        × ((delete_document id g).relations ≡ g.relations)
  unfolding delete_document delete_chunks delete_document_node
  delete_document-left id g = (
    λ d. elem-keys-filter (λ d. not (d == id)) d g.documents,
    λ c. elem-keys-filter (λ c. not (elem (id, c) g.has_chunk)) c g.chunks,
    refl,
    refl,
  )

  pub garbage_collect_orphans-IsWellFormed :
      (g : Graph O) → IsWellFormed g → IsWellFormed (garbage_collect_orphans g).0
  unfolding garbage_collect_orphans
  garbage_collect_orphans-IsWellFormed g w =
      let known : (k : Value O)
          → elem k (keys g.entities) ≡ true
          → is_mentioned g k ≡ true
          → elem k (keys (filter (λ p. is_mentioned g p.0) g.entities)) ≡ true =
        λ k h t. elem-keys-filter (is_mentioned g) k g.entities ∙ ground (arith, h, t) in
      record {
        documents_Distinct = w.documents_Distinct;
        chunks_Distinct = w.chunks_Distinct;
        entities_Distinct = Distinct-filter (is_mentioned g) g.entities w.entities_Distinct;
        has_chunk_ends = w.has_chunk_ends;
        mentions_ends = All-In _ g.mentions (λ m h.
            let p = In-All _ m g.mentions w.mentions_ends h in
            (p.0, known m.1 p.1 (elem_of_In m.1 (values g.mentions) (In-values m g.mentions h))));
        relations_ends =
            All-filter _ _ _
              (λ r p k.
                (known r.0.0.0 p.0 (ground (arith, k)), known r.0.0.1 p.1 (ground (arith, k))))
              g.relations w.relations_ends;
      }

  -- A chunk mentions the entity.
  abbrev pub IsMentioned : Graph O → Value O → Type 0
  IsMentioned g id = (chunk : Value O) × In (chunk, id) g.mentions

  is_mentioned_iff : (g : Graph O) (id : Value O) → (is_mentioned g id ≡ true) ↔ IsMentioned g id
  is_mentioned_iff g id = (
    λ h. values-In id g.mentions (In-of_elem id (values g.mentions) h),
    λ m. elem_of_In id (values g.mentions) (In-values (m.0, id) g.mentions m.1),
  )

  collected_entities :
      (g : Graph O) (p : Value O × EntityProps O)
      → In p (garbage_collect_orphans g).0.entities ↔ (In p g.entities × IsMentioned g p.0)
  unfolding garbage_collect_orphans
  collected_entities g p = (
    λ h.
        let (old, t) = In-filter (λ q. is_mentioned g q.0) p g.entities h in
        (old, (is_mentioned_iff g p.0).0 t),
    λ h. filter-In (λ q. is_mentioned g q.0) p g.entities h.0 ((is_mentioned_iff g p.0).1 h.1),
  )

  collected_relations :
      (g : Graph O) (r : ((Value O × Value O) × Text) × Value O)
      → In r (garbage_collect_orphans g).0.relations
        ↔ (In r g.relations × IsMentioned g r.0.0.0 × IsMentioned g r.0.0.1)
  unfolding garbage_collect_orphans
  collected_relations g r = (
    λ h.
        let (old, t) =
          In-filter (λ q. is_mentioned g q.0.0.0 && is_mentioned g q.0.0.1) r g.relations h in
        (
          old,
          (is_mentioned_iff g r.0.0.0).0 (ground (arith, t)),
          (is_mentioned_iff g r.0.0.1).0 (ground (arith, t)),
        ),
    λ (old, s, t).
        filter-In (λ q. is_mentioned g q.0.0.0 && is_mentioned g q.0.0.1) r g.relations old
          (rw ((is_mentioned_iff g r.0.0.0).1 s, (is_mentioned_iff g r.0.0.1).1 t) refl),
  )

  -- The collection leaves an entity exactly where the graph has an edge MENTIONS from a chunk to it, and
  -- a relation exactly where it has such edges to both of its ends. The other nodes and edges stay. It
  -- returns the number of entities that it deletes, and a second one deletes none.
  pub garbage_collect_orphans-left :
      (g : Graph O)
      → ((p : Value O × EntityProps O)
          → In p (garbage_collect_orphans g).0.entities ↔ (In p g.entities × IsMentioned g p.0))
        × ((r : ((Value O × Value O) × Text) × Value O)
            → In r (garbage_collect_orphans g).0.relations
              ↔ (In r g.relations × IsMentioned g r.0.0.0 × IsMentioned g r.0.0.1))
        × ((garbage_collect_orphans g).0.documents ≡ g.documents)
        × ((garbage_collect_orphans g).0.chunks ≡ g.chunks)
        × ((garbage_collect_orphans g).0.has_chunk ≡ g.has_chunk)
        × ((garbage_collect_orphans g).0.mentions ≡ g.mentions)
        × (length (garbage_collect_orphans g).0.entities + (garbage_collect_orphans g).1
            ≡ length g.entities)
        × ((garbage_collect_orphans (garbage_collect_orphans g).0).1 ≡ 0)
  unfolding garbage_collect_orphans
  garbage_collect_orphans-left g = (
    collected_entities g,
    collected_relations g,
    refl,
    refl,
    refl,
    refl,
    length-filter-not (λ p. is_mentioned g p.0) g.entities,
    ap length (filter-filter-not (λ p. is_mentioned g p.0) g.entities),
  )
