-- ===== src/Storage/Graph/Schema.antt =====
-- The index methods of `FalkorEngine` in jenezis/storage/falkor_engine.py. The database is a parameter:
-- what a CREATE statement does to its indexes, and the text of an error.
pub mod Idempotent
use jenezis.Prelude.{
  ℕ, Bool, true, false, ◌||◌, List, [], ◌∷◌, Text, Text_eq, codes, contains, Result, ok, raise,
  Error, ◌>>◌, ◌>=>◌, pure, if◌then◌else◌,
}
use jenezis.Storage.Identifiers.{validate_identifier}

-- What an index is made on. A vector index has the number of dimensions and the similarity too.
pub data Kind : Type 0 where
  vector : ℕ → Text → Kind
  property : Kind

pub record Index : Type 0 where
  pub kind : Kind
  pub label : Text
  pub property_name : Text

pub record Database : Type 0 where
  pub create : Index → List Index → Result (List Index)
  pub message : Error → Text
  pub lower : Text → Text

-- The three texts that the `except` clauses look for.
abbrev pub is_existing : Text → Bool
is_existing err_str =
    contains (codes "already exists") err_str
    || (contains (codes "already indexed") err_str || contains (codes "index already") err_str)

module _ (db : Database) where
  -- The statement, and the `except` clause around it.
  unfoldable pub run_create : Index → List Index → Result (Unit {0}) × List Index
  run_create index indexes = elim (db.create index indexes) [
    | ok indexes' ↦ (ok tt, indexes')
    | raise error ↦
        if is_existing (db.lower (db.message error))
        then (ok tt, indexes)
        else (raise error, indexes)
  ]

  unfoldable pub create_index : Index → List Index → Result (Unit {0}) × List Index
  unfolding run_create
  create_index index indexes =
      pure (validate_identifier index.label >> validate_identifier index.property_name) indexes
      >=> λ _. run_create index

  -- The default arguments are 1536 dimensions and the cosine similarity.
  abbrev pub create_vector_index : Text → Text → List Index → Result (Unit {0}) × List Index
  create_vector_index label property_name =
      create_index (record {
        kind = vector 1536 (codes "cosine");
        label = label;
        property_name = property_name;
      })

  abbrev pub create_property_index : Text → Text → List Index → Result (Unit {0}) × List Index
  create_property_index label property_name =
      create_index (record { kind = property; label = label; property_name = property_name })

  unfoldable pub initialize_schema : List Index → Result (Unit {0}) × List Index
  unfolding create_index
  initialize_schema indexes =
      create_vector_index (codes "Entity") (codes "embedding") indexes >=> λ _ i1.
      create_vector_index (codes "Chunk") (codes "embedding") i1 >=> λ _ i2.
      create_property_index (codes "Entity") (codes "id") i2 >=> λ _ i3.
      create_property_index (codes "Entity") (codes "canonical_id") i3 >=> λ _ i4.
      create_property_index (codes "Chunk") (codes "id") i4 >=> λ _ i5.
      create_property_index (codes "Document") (codes "id") i5 >=> λ _ i6. (ok tt, i6)
