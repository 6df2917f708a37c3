-- ===== src/App/Tasks/Process/Unlinked.antt =====
-- The identifiers that an attempt of the pipeline writes: entities under the model's texts, relations
-- between canonical numbers.
use jenezis.Prelude.{
  ℕ, zero, suc, Text_eq, ◌≡◌, refl, inl, inr, Bool, false, Bool-cases, List, [], ◌∷◌, map, All,
  All-append, All-insert, elem, keys, lookup, Option, none, some, Text, text_eq, Result, ok, raise,
  Eq, nat_eq, delete_char, codes,
}
use jenezis.Storage.Rows.{
  Value, text, number, Value_eq, get, sanitize_document, sanitize_items, check_required,
}
use jenezis.Storage.Graph.{Graph, EntityProps}
use jenezis.Storage.Graph.Engine.{
  Row, id_key, entity_props, upsert_entity, upsert_entity_rows, upsert_entities, sanitize_rows,
}
use jenezis.Storage.Graph.Store.{attempt, check_batches, add_entities_and_relations}
use jenezis.Storage.Graph.Store.Foreign.{IsForeign, add_relations-foreign}
use jenezis.Ingestion.Records.{Entity, Relation}
use jenezis.App.Tasks.Process.{entity_doc, remap, remap_ends}

module _ {O : Type 0} ⦃e : Eq O⦄ where
  abbrev pub IsText : Value O → Type 0
  IsText v = (s : Text) × (v ≡ text s)

  -- Every entity of the graph has a text for its identifier.
  abbrev pub HasTextIds : Graph O → Type 0
  HasTextIds g = All (λ p. IsText p.0) g.entities

  number-unknown :
      (n : ℕ) (m : List (Value O × EntityProps O))
      → All (λ p. IsText p.0) m
      → elem (number n) (keys m) ≡ false
  number-unknown n [] h = refl
  number-unknown n ((k, v) ∷ m) ((s, p), h) = rw p (number-unknown n m h)

  remap_ends-IsForeign :
      (rel : Relation Text) (s t : Option ℕ) (g : Graph O)
      → HasTextIds g
      → All (IsForeign g) (remap_ends rel s t)
  remap_ends-IsForeign rel none t g h = tt
  remap_ends-IsForeign rel (some zero) t g h = tt
  remap_ends-IsForeign rel (some (suc s)) none g h = tt
  remap_ends-IsForeign rel (some (suc s)) (some zero) g h = tt
  remap_ends-IsForeign rel (some (suc s)) (some (suc t)) g h =
      elim (Bool-cases (nat_eq (suc s) (suc t))) [
        | inl same ↦ rw same tt
        | inr apart ↦
            rw apart
              ((number-unknown (suc s) g.entities h, number-unknown (suc t) g.entities h), tt)
      ]

  remap-IsForeign :
      (m : List (Text × ℕ)) (relations : List (Relation Text)) (g : Graph O)
      → HasTextIds g
      → All (IsForeign g) (remap m relations)
  unfolding remap
  remap-IsForeign m [] g h = tt
  remap-IsForeign m (rel ∷ relations) g h =
      All-append (IsForeign g) (remap_ends rel (lookup rel.source_id m) (lookup rel.target_id m))
        (remap m relations)
        (remap_ends-IsForeign rel (lookup rel.source_id m) (lookup rel.target_id m) g h)
        (remap-IsForeign m relations g h)

  abbrev entity_row : Entity → Row O
  entity_row x =
      (id_key, text (delete_char 0 x.id))
      ∷ (codes "name", text (delete_char 0 x.name))
      ∷ (codes "type", text (delete_char 0 x.type))
      ∷ []

  sanitize_document-entity_doc :
      (is_invalid : O → Bool) (x : Entity)
      → sanitize_document is_invalid (id_key ∷ []) (entity_doc x) ≡ ok (entity_row x)
  unfolding sanitize_document sanitize_items check_required text_eq
  sanitize_document-entity_doc is_invalid x = refl

  sanitize_rows-entity_doc :
      (is_invalid : O → Bool) (entities : List Entity)
      → sanitize_rows is_invalid (map entity_doc entities) ≡ ok (map entity_row entities)
  unfolding sanitize_rows
  sanitize_rows-entity_doc is_invalid [] = refl
  sanitize_rows-entity_doc is_invalid (x ∷ xs) =
      rw (sanitize_document-entity_doc is_invalid x, sanitize_rows-entity_doc is_invalid xs) refl

  get-entity_row :
      (g : Graph O) (xs : List Entity)
      → All (λ (row : Row O). IsText (get id_key row)) (map entity_row xs)
  unfolding text_eq
  get-entity_row g [] = tt
  get-entity_row g (x ∷ xs) = ((delete_char 0 x.id, refl), get-entity_row g xs)

  upsert_entity_rows-same :
      (rows : List (Row O)) (g : Graph O)
      → HasTextIds g
      → All (λ row. IsText (get id_key row)) rows
      → ((upsert_entity_rows rows g).relations ≡ g.relations)
        × ((upsert_entity_rows rows g).mentions ≡ g.mentions)
        × HasTextIds (upsert_entity_rows rows g)
  unfolding upsert_entity_rows
  upsert_entity_rows-same [] g h r = (refl, refl, h)
  upsert_entity_rows-same (row ∷ rows) g h r =
      upsert_entity_rows-same rows (upsert_entity row g)
        (All-insert IsText (get id_key row) (entity_props row) g.entities r.0 h) r.1

  -- What an attempt leaves of a graph's relations and mentions.
  abbrev pub IsUnlinked : Graph O → Graph O → Type 0
  IsUnlinked g out = (out.relations ≡ g.relations) × (out.mentions ≡ g.mentions) × HasTextIds out

  attempt-IsUnlinked :
      {B : Type 0} (m : Result B) (g : Graph O) (k : B → Result (Unit {0}) × Graph O)
      → HasTextIds g
      → ((b : B) → m ≡ ok b → IsUnlinked g (k b).1)
      → IsUnlinked g (attempt m g k).1
  attempt-IsUnlinked (ok b) g k h f = f b refl
  attempt-IsUnlinked (raise error) g k h f = (refl, refl, h)

  -- The entities of the pipeline carry the model's texts for identifiers and its relations canonical
  -- numbers. So the write of an attempt, on a graph whose entities all have texts for identifiers,
  -- adds no relation and no mention of an entity, and leaves such a graph.
  pub add_entities_and_relations-IsUnlinked :
      (is_invalid : O → Bool) (entities : List Entity) (resolved_map : List (Text × ℕ))
      (relations : List (Relation Text))
      → (g : Graph O) → HasTextIds g
      → IsUnlinked g
          (add_entities_and_relations is_invalid
            (map entity_doc entities)
            (remap resolved_map relations)
            g).1
  unfolding add_entities_and_relations upsert_entities
  add_entities_and_relations-IsUnlinked is_invalid entities resolved_map relations g h =
      attempt-IsUnlinked (check_batches (map entity_doc entities) (remap resolved_map relations)) g
        _ h
        (λ _ _. rw (sanitize_rows-entity_doc is_invalid entities) (
          let written = upsert_entity_rows (map entity_row entities) g in
          let (r, m, t) =
            upsert_entity_rows-same (map entity_row entities) g h (get-entity_row g entities) in
          rw
            (add_relations-foreign (remap resolved_map relations) written
              (remap-IsForeign resolved_map relations written t))
            (r, m, t)))
