-- ===== src/Storage/Graph/Store/Ends.antt =====
-- The writes of the store keep the graph well formed, whether they return or raise.
use jenezis.Prelude.{
  ◌≡◌, refl, subst, Bool, List, [], ◌∷◌, Text_eq, Eq, Result, ok, raise, >>=-eq-ok,
}
use jenezis.Storage.Rows.{Value, Value_eq, Key}
use jenezis.Storage.Graph.{Graph}
use jenezis.Storage.Graph.Engine.{
  RelationRow, group_by_type, upsert_groups, upsert_relations, upsert_entities, sanitize_rows,
  link_entities_to_chunk,
}
use jenezis.Storage.Graph.Invariant.{
  IsWellFormed, upsert_entity_rows-IsWellFormed, upsert_groups-IsWellFormed,
  link_entities_to_chunk-IsWellFormed,
}
use jenezis.Storage.Graph.Store.{
  group_by_chunk, link_chunks, attempt, add_relations, check_batches, add_entities_and_relations,
}

module _ {O : Type 0} ⦃e : Eq O⦄ where
  link_chunks-IsWellFormed :
      (sets : List (Value O × List (Value O))) (g : Graph O)
      → IsWellFormed g
      → IsWellFormed (link_chunks sets g)
  unfolding link_chunks
  link_chunks-IsWellFormed [] g w = w
  link_chunks-IsWellFormed ((c, ids) ∷ sets) g w =
      link_chunks-IsWellFormed sets (link_entities_to_chunk c ids g)
        (link_entities_to_chunk-IsWellFormed c ids g w)

  upsert_relations-IsWellFormed :
      (relations : List (RelationRow O)) (g out : Graph O)
      → upsert_relations relations g ≡ ok out
      → IsWellFormed g
      → IsWellFormed out
  unfolding upsert_relations
  upsert_relations-IsWellFormed relations g out h w =
      let (grouped, _, f) = >>=-eq-ok (group_by_type [] relations) _ h in
      let p : upsert_groups grouped g ≡ out = cc f in
      subst IsWellFormed p (upsert_groups-IsWellFormed grouped g w)

  upsert_entities-IsWellFormed :
      (is_invalid : O → Bool) (entities : List (List (Key × Value O))) (g out : Graph O)
      → upsert_entities is_invalid entities g ≡ ok out
      → IsWellFormed g
      → IsWellFormed out
  unfolding upsert_entities
  upsert_entities-IsWellFormed is_invalid entities g out h w =
      let (rows, _, f) = >>=-eq-ok (sanitize_rows is_invalid entities) _ h in
      subst IsWellFormed (cc f) (upsert_entity_rows-IsWellFormed rows g w)

  attempt-IsWellFormed :
      {B : Type 0} (m : Result B) (g : Graph O) (k : B → Result (Unit {0}) × Graph O)
      → IsWellFormed g
      → ((b : B) → m ≡ ok b → IsWellFormed (k b).1)
      → IsWellFormed (attempt m g k).1
  attempt-IsWellFormed (ok b) g k w f = f b refl
  attempt-IsWellFormed (raise error) g k w f = w

  add_relations-IsWellFormed :
      (relations : List (RelationRow O)) (g : Graph O)
      → IsWellFormed g
      → IsWellFormed (add_relations relations g).1
  add_relations-IsWellFormed [] g w = w
  add_relations-IsWellFormed (rel ∷ relations) g w =
      attempt-IsWellFormed (upsert_relations (rel ∷ relations) g) g _ w (λ out f.
        link_chunks-IsWellFormed (group_by_chunk [] (rel ∷ relations)) out
          (upsert_relations-IsWellFormed (rel ∷ relations) g out f w))

  -- Whether it returns or raises, the call leaves a well-formed graph well formed.
  pub add_entities_and_relations-IsWellFormed :
      (is_invalid : O → Bool) (entities : List (List (Key × Value O)))
      (relations : List (RelationRow O)) (g : Graph O)
      → IsWellFormed g
      → IsWellFormed (add_entities_and_relations is_invalid entities relations g).1
  unfolding add_entities_and_relations
  add_entities_and_relations-IsWellFormed is_invalid entities relations g w =
      attempt-IsWellFormed (check_batches entities relations) g _ w (λ _ _.
        attempt-IsWellFormed (upsert_entities is_invalid entities g) g (add_relations relations) w
          (λ out f.
            add_relations-IsWellFormed relations out
              (upsert_entities-IsWellFormed is_invalid entities g out f w)))
