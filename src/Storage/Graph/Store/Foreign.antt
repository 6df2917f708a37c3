-- ===== src/Storage/Graph/Store/Foreign.antt =====
-- Relations between identifiers that no entity of the graph has.
use jenezis.Prelude.{
  ◌≡◌, refl, ap, sym, ◌∙◌, subst, Bool, false, Bool-cases, List, [], ◌∷◌, ◌++◌, All, All-append,
  elem, Text, Text_eq, keys, lookup_or, lookup, insert, Eq, ◌==◌, Result, ok, raise, >>=-eq-ok, inl,
  inr,
}
use jenezis.Storage.Identifiers.{validate_identifier}
use jenezis.Storage.Rows.{Value, Value_eq, Key}
use jenezis.Storage.Graph.{Graph}
use jenezis.Storage.Graph.Invariant.{All-merge}
use jenezis.Storage.Graph.Engine.{
  RelationRow, merge, type_of, is_truthy, add_to_group, group_by_type, upsert_relation,
  upsert_batch, upsert_groups, upsert_relations, upsert_entities, link_entities,
  link_entities_to_chunk,
}
use jenezis.Storage.Graph.Store.{
  add_to_set, group_by_chunk, link_chunks, attempt, add_relations, check_batches,
  add_entities_and_relations,
}

All-insert_value :
    {K V : Type 0} ⦃e : Eq K⦄ (Q : V → Type 0) (k : K) (v : V) (m : List (K × V))
    → Q v
    → All (λ p. Q p.1) m
    → All (λ p. Q p.1) (insert k v m)
All-insert_value Q k v [] q h = (q, tt)
All-insert_value Q k v ((j, w) ∷ m) q h = elim (Bool-cases (k == j)) [
  | inl same ↦ rw same (q, h.1)
  | inr new ↦ rw new (h.0, All-insert_value Q k v m q h.1)
]

lookup_or-All :
    {K V : Type 0} ⦃e : Eq K⦄ (Q : V → Type 0) (k : K) (d : V) (m : List (K × V))
    → Q d
    → All (λ p. Q p.1) m
    → Q (lookup_or k d m)
lookup_or-All Q k d [] q h = q
lookup_or-All Q k d ((j, w) ∷ m) q h = elim (Bool-cases (k == j)) [
  | inl same ↦ rw (lookup_or, lookup, same) h.0
  | inr new ↦ rw (lookup_or, lookup, new) (lookup_or-All Q k d m q h.1)
]

module _ {O : Type 0} ⦃e : Eq O⦄ where
  -- Relations whose ends the graph does not have.
  abbrev pub IsForeign : Graph O → RelationRow O → Type 0
  IsForeign g r =
      (elem r.source_id (keys g.entities) ≡ false) × (elem r.target_id (keys g.entities) ≡ false)

  upsert_batch-foreign :
      (type : Text) (rows : List (RelationRow O)) (g : Graph O)
      → All (IsForeign g) rows
      → upsert_batch type rows g ≡ g
  unfolding upsert_batch upsert_relation
  upsert_batch-foreign type [] g h = refl
  upsert_batch-foreign type (row ∷ rows) g h = rw h.0.0 (upsert_batch-foreign type rows g h.1)

  upsert_groups-foreign :
      (groups : List (Text × List (RelationRow O))) (g : Graph O)
      → All (λ p. All (IsForeign g) p.1) groups
      → upsert_groups groups g ≡ g
  unfolding upsert_groups
  upsert_groups-foreign [] g h = refl
  upsert_groups-foreign ((type, batch) ∷ groups) g h =
      rw (upsert_batch-foreign type batch g h.0) (upsert_groups-foreign groups g h.1)

  group_by_type-IsForeign :
      (groups : List (Text × List (RelationRow O))) (rows : List (RelationRow O)) (g : Graph O)
      → (out : List (Text × List (RelationRow O))) → group_by_type groups rows ≡ ok out
      → All (λ p. All (IsForeign g) p.1) groups
      → All (IsForeign g) rows
      → All (λ p. All (IsForeign g) p.1) out
  unfolding group_by_type
  group_by_type-IsForeign groups [] g out h k r = subst (All (λ p. All (IsForeign g) p.1)) (cc h) k
  group_by_type-IsForeign groups (row ∷ rows) g out h k r =
      let (_, _, f) = >>=-eq-ok (validate_identifier (type_of row)) _ h in
      let old = lookup_or (type_of row) [] groups in
      group_by_type-IsForeign (add_to_group row groups) rows g out f
        (All-insert_value (All (IsForeign g)) (type_of row) (old ++ row ∷ []) groups
          (All-append (IsForeign g) old (row ∷ [])
            (lookup_or-All (All (IsForeign g)) (type_of row) [] groups tt k) (r.0, tt))
          k)
        r.1

  abbrev IsUnknown : Graph O → Value O → Type 0
  IsUnknown g id = elem id (keys g.entities) ≡ false

  group_by_chunk-IsUnknown :
      (sets : List (Value O × List (Value O))) (rows : List (RelationRow O)) (g : Graph O)
      → All (λ p. All (IsUnknown g) p.1) sets
      → All (IsForeign g) rows
      → All (λ p. All (IsUnknown g) p.1) (group_by_chunk sets rows)
  unfolding group_by_chunk
  group_by_chunk-IsUnknown sets [] g h r = h
  group_by_chunk-IsUnknown sets (row ∷ rows) g h r =
      let add : (id : Value O) (sets : List (Value O × List (Value O)))
          → IsUnknown g id
          → All (λ p. All (IsUnknown g) p.1) sets
          → All (λ p. All (IsUnknown g) p.1) (add_to_set row.chunk_id id sets) =
        λ id sets u h.
          All-insert_value (All (IsUnknown g)) row.chunk_id
            (merge id (lookup_or row.chunk_id [] sets)) sets
            (All-merge (IsUnknown g) id (lookup_or row.chunk_id [] sets) u
              (lookup_or-All (All (IsUnknown g)) row.chunk_id [] sets tt h))
            h in
      elim (Bool-cases (is_truthy row.chunk_id)) [
        | inl has ↦ rw has (
            group_by_chunk-IsUnknown
              (add_to_set row.chunk_id row.target_id (add_to_set row.chunk_id row.source_id sets))
              rows g
              (add row.target_id (add_to_set row.chunk_id row.source_id sets) r.0.1
                (add row.source_id sets r.0.0 h))
              r.1)
        | inr no' ↦ rw no' (group_by_chunk-IsUnknown sets rows g h r.1)
      ]

  link_entities-unknown :
      (c : Value O) (ids : List (Value O)) (g : Graph O)
      → All (IsUnknown g) ids
      → link_entities c ids g ≡ g
  unfolding link_entities
  link_entities-unknown c [] g h = refl
  link_entities-unknown c (id ∷ ids) g h = rw h.0 (link_entities-unknown c ids g h.1)

  link_chunks-unknown :
      (sets : List (Value O × List (Value O))) (g : Graph O)
      → All (λ p. All (IsUnknown g) p.1) sets
      → link_chunks sets g ≡ g
  unfolding link_chunks link_entities_to_chunk
  link_chunks-unknown [] g h = refl
  link_chunks-unknown ((c, ids) ∷ sets) g h = elim (Bool-cases (elem c (keys g.chunks))) [
    | inl here ↦ rw (here, link_entities-unknown c ids g h.0) (link_chunks-unknown sets g h.1)
    | inr gone ↦ rw gone (link_chunks-unknown sets g h.1)
  ]

  attempt-same :
      {B : Type 0} (m : Result B) (g : Graph O) (k : B → Result (Unit {0}) × Graph O)
      → ((b : B) → m ≡ ok b → (k b).1 ≡ g)
      → (attempt m g k).1 ≡ g
  attempt-same (ok b) g k f = f b refl
  attempt-same (raise error) g k f = refl

  pub add_relations-foreign :
      (relations : List (RelationRow O)) (g : Graph O)
      → All (IsForeign g) relations
      → (add_relations relations g).1 ≡ g
  unfolding upsert_relations
  add_relations-foreign [] g h = refl
  add_relations-foreign (rel ∷ relations) g h =
      attempt-same (upsert_relations (rel ∷ relations) g) g _ (λ out f.
        let (groups, t, u) = >>=-eq-ok (group_by_type [] (rel ∷ relations)) _ f in
        let q : upsert_groups groups g ≡ out = cc u in
        let p : out ≡ g =
          sym q
          ∙ upsert_groups-foreign groups g
              (group_by_type-IsForeign [] (rel ∷ relations) g groups t tt h) in
        ap (link_chunks (group_by_chunk [] (rel ∷ relations))) p
        ∙ link_chunks-unknown (group_by_chunk [] (rel ∷ relations)) g
            (group_by_chunk-IsUnknown [] (rel ∷ relations) g tt h))

  -- Where both batches pass the checks and the entities are written, relations whose ends are no
  -- identifiers of the graph add nothing to it: no relation, and no mention by a chunk.
  pub add_entities_and_relations-foreign :
      (is_invalid : O → Bool) (entities : List (List (Key × Value O)))
      (relations : List (RelationRow O))
      → (g written : Graph O) → check_batches entities relations ≡ ok tt
      → upsert_entities is_invalid entities g ≡ ok written
      → All (IsForeign written) relations
      → (add_entities_and_relations is_invalid entities relations g).1 ≡ written
  unfolding add_entities_and_relations
  add_entities_and_relations-foreign is_invalid entities relations g written c u h =
      rw (add_entities_and_relations, c, u) (add_relations-foreign relations written h)
