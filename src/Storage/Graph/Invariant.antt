-- ===== src/Storage/Graph/Invariant.antt =====
-- The well-formedness of the graph, and that every statement of the engine keeps it.
use jenezis.Prelude.{
  ℕ, ◌≡◌, true, Bool-cases, List, [], ◌∷◌, All, All-map, All-append, All-insert, elem, Text,
  Text_eq, ℕ_eq, keys, insert, Distinct, Distinct-insert, elem-keys-insert_old,
  elem-keys-insert_new, Eq, inl, inr,
}
use jenezis.Storage.Rows.{Value, Value_eq, get}
use jenezis.Storage.Graph.{Graph, Pair_eq, empty_graph}
use jenezis.Storage.Graph.Engine.{
  Row, RelationRow, id_key, merge, chunk_props, entity_props, upsert_entity, upsert_document,
  upsert_chunk, upsert_chunk_rows, upsert_entity_rows, upsert_relation, upsert_batch, upsert_groups,
  link_entities, link_entities_to_chunk,
}

pub All-merge :
    {A : Type 0} ⦃e : Eq A⦄ (P : A → Type 0) (a : A) (xs : List A)
    → P a
    → All P xs
    → All P (merge a xs)
All-merge P a xs p h = elim (Bool-cases (elem a xs)) [
  | inl known ↦ rw known h
  | inr new ↦ rw new (All-append P xs (a ∷ []) h (p, tt))
]

module _ {O : Type 0} ⦃e : Eq O⦄ where
  -- Each label has an identifier once, and a relationship ends in nodes of the graph.
  pub record IsWellFormed (g : Graph O) : Type 0 where
    pub documents_Distinct : Distinct (keys g.documents)
    pub chunks_Distinct : Distinct (keys g.chunks)
    pub entities_Distinct : Distinct (keys g.entities)
    pub has_chunk_ends :
        All
          (λ h. (elem h.0 (keys g.documents) ≡ true) × (elem h.1 (keys g.chunks) ≡ true))
          g.has_chunk
    pub mentions_ends :
        All
          (λ m. (elem m.0 (keys g.chunks) ≡ true) × (elem m.1 (keys g.entities) ≡ true))
          g.mentions
    pub relations_ends :
        All
          (λ r. (elem r.0.0.0 (keys g.entities) ≡ true) × (elem r.0.0.1 (keys g.entities) ≡ true))
          g.relations

  pub empty_graph-IsWellFormed : IsWellFormed empty_graph
  empty_graph-IsWellFormed = record {
    documents_Distinct = tt;
    chunks_Distinct = tt;
    entities_Distinct = tt;
    has_chunk_ends = tt;
    mentions_ends = tt;
    relations_ends = tt;
  }

  pub upsert_document-IsWellFormed :
      (id : ℕ) (filename : Text) (g : Graph O)
      → IsWellFormed g
      → IsWellFormed (upsert_document id filename g)
  unfolding upsert_document
  upsert_document-IsWellFormed id filename g w = record {
    documents_Distinct = Distinct-insert id filename g.documents w.documents_Distinct;
    has_chunk_ends =
        All-map _ _ (λ h p. (elem-keys-insert_old id h.0 filename g.documents p.0, p.1)) g.has_chunk
          w.has_chunk_ends;
    chunks_Distinct = w.chunks_Distinct;
    entities_Distinct = w.entities_Distinct;
    mentions_ends = w.mentions_ends;
    relations_ends = w.relations_ends;
  }

  upsert_chunk-IsWellFormed :
      (id : ℕ) (row : Row O) (g : Graph O) → IsWellFormed g → IsWellFormed (upsert_chunk id row g)
  unfolding upsert_chunk
  upsert_chunk-IsWellFormed id row g w = elim (Bool-cases (elem id (keys g.documents))) [
    | inl here ↦ rw here (record {
      chunks_Distinct =
          Distinct-insert (get id_key row) (chunk_props row) g.chunks w.chunks_Distinct;
      has_chunk_ends =
          All-merge _ (id, get id_key row) g.has_chunk
            (here, elem-keys-insert_new (get id_key row) (chunk_props row) g.chunks)
            (All-map _ _
              (λ h p.
                (p.0, elem-keys-insert_old (get id_key row) h.1 (chunk_props row) g.chunks p.1))
              g.has_chunk w.has_chunk_ends);
      mentions_ends =
          All-map _ _
            (λ m p. (elem-keys-insert_old (get id_key row) m.0 (chunk_props row) g.chunks p.0, p.1))
            g.mentions w.mentions_ends;
      documents_Distinct = w.documents_Distinct;
      entities_Distinct = w.entities_Distinct;
      relations_ends = w.relations_ends;
    })
    | inr missing ↦ rw missing w
  ]

  pub upsert_chunk_rows-IsWellFormed :
      (id : ℕ) (rows : List (Row O)) (g : Graph O)
      → IsWellFormed g
      → IsWellFormed (upsert_chunk_rows id rows g)
  unfolding upsert_chunk_rows
  upsert_chunk_rows-IsWellFormed id [] g w = w
  upsert_chunk_rows-IsWellFormed id (row ∷ rows) g w =
      upsert_chunk_rows-IsWellFormed id rows (upsert_chunk id row g)
        (upsert_chunk-IsWellFormed id row g w)

  pub upsert_entity_rows-IsWellFormed :
      (rows : List (Row O)) (g : Graph O)
      → IsWellFormed g
      → IsWellFormed (upsert_entity_rows rows g)
  unfolding upsert_entity_rows
  upsert_entity_rows-IsWellFormed [] g w = w
  upsert_entity_rows-IsWellFormed (row ∷ rows) g w =
      let old : (k : Value O)
          → elem k (keys g.entities) ≡ true
          → elem k (keys (insert (get id_key row) (entity_props row) g.entities)) ≡ true =
        λ k. elem-keys-insert_old (get id_key row) k (entity_props row) g.entities in
      upsert_entity_rows-IsWellFormed rows (upsert_entity row g) (record {
        entities_Distinct =
            Distinct-insert (get id_key row) (entity_props row) g.entities w.entities_Distinct;
        mentions_ends = All-map _ _ (λ m p. (p.0, old m.1 p.1)) g.mentions w.mentions_ends;
        relations_ends =
            All-map _ _ (λ r p. (old r.0.0.0 p.0, old r.0.0.1 p.1)) g.relations w.relations_ends;
        documents_Distinct = w.documents_Distinct;
        chunks_Distinct = w.chunks_Distinct;
        has_chunk_ends = w.has_chunk_ends;
      })

  upsert_relation-IsWellFormed :
      (type : Text) (row : RelationRow O) (g : Graph O)
      → IsWellFormed g
      → IsWellFormed (upsert_relation type row g)
  unfolding upsert_relation
  upsert_relation-IsWellFormed type row g w =
      elim (Bool-cases (elem row.source_id (keys g.entities))) [
        | inr none' ↦ rw none' w
        | inl source ↦ elim (Bool-cases (elem row.target_id (keys g.entities))) [
          | inr none' ↦ rw (source, none') w
          | inl target ↦
              rw (source, target)
                (record {
                  documents_Distinct = w.documents_Distinct;
                  chunks_Distinct = w.chunks_Distinct;
                  entities_Distinct = w.entities_Distinct;
                  has_chunk_ends = w.has_chunk_ends;
                  mentions_ends = w.mentions_ends;
                  relations_ends =
                      All-insert
                        (λ k.
                          (elem k.0.0 (keys g.entities) ≡ true)
                          × (elem k.0.1 (keys g.entities) ≡ true))
                        ((row.source_id, row.target_id), type) row.chunk_id g.relations
                        (source, target) w.relations_ends;
                })
        ]
      ]

  upsert_batch-IsWellFormed :
      (type : Text) (rows : List (RelationRow O)) (g : Graph O)
      → IsWellFormed g
      → IsWellFormed (upsert_batch type rows g)
  unfolding upsert_batch
  upsert_batch-IsWellFormed type [] g w = w
  upsert_batch-IsWellFormed type (row ∷ rows) g w =
      upsert_batch-IsWellFormed type rows (upsert_relation type row g)
        (upsert_relation-IsWellFormed type row g w)

  pub upsert_groups-IsWellFormed :
      (groups : List (Text × List (RelationRow O))) (g : Graph O)
      → IsWellFormed g
      → IsWellFormed (upsert_groups groups g)
  unfolding upsert_groups
  upsert_groups-IsWellFormed [] g w = w
  upsert_groups-IsWellFormed ((type, batch) ∷ groups) g w =
      upsert_groups-IsWellFormed groups (upsert_batch type batch g)
        (upsert_batch-IsWellFormed type batch g w)

  link_entities-IsWellFormed :
      (chunk_id : Value O) (ids : List (Value O)) (g : Graph O)
      → elem chunk_id (keys g.chunks) ≡ true
      → IsWellFormed g
      → IsWellFormed (link_entities chunk_id ids g)
  unfolding link_entities
  link_entities-IsWellFormed chunk_id [] g here w = w
  link_entities-IsWellFormed chunk_id (id ∷ ids) g here w =
      elim (Bool-cases (elem id (keys g.entities))) [
        | inr missing ↦ rw missing (link_entities-IsWellFormed chunk_id ids g here w)
        | inl known ↦ rw known (
            link_entities-IsWellFormed chunk_id ids
              (record g { mentions = merge (chunk_id, id) g.mentions }) here
              (record {
                documents_Distinct = w.documents_Distinct;
                chunks_Distinct = w.chunks_Distinct;
                entities_Distinct = w.entities_Distinct;
                has_chunk_ends = w.has_chunk_ends;
                mentions_ends = All-merge _ (chunk_id, id) g.mentions (here, known) w.mentions_ends;
                relations_ends = w.relations_ends;
              }))
      ]

  pub link_entities_to_chunk-IsWellFormed :
      (chunk_id : Value O) (ids : List (Value O)) (g : Graph O)
      → IsWellFormed g
      → IsWellFormed (link_entities_to_chunk chunk_id ids g)
  unfolding link_entities_to_chunk
  link_entities_to_chunk-IsWellFormed chunk_id ids g w =
      elim (Bool-cases (elem chunk_id (keys g.chunks))) [
        | inl here ↦ rw here (link_entities-IsWellFormed chunk_id ids g here w)
        | inr missing ↦ rw missing w
      ]
