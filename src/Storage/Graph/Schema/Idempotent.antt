-- ===== src/Storage/Graph/Schema/Idempotent.antt =====
-- The indexes after the start, and after every further start.
use jenezis.Prelude.{
  ◌≡◌, refl, ◌∙◌, true, ◌⊎◌, inl, inr, List, [], ◌∷◌, In, All, codes, is_letter, is_identifier_char,
  Result, ok, raise, Error, ◌>=>◌,
}
use jenezis.Storage.Identifiers.{matches_pattern, validate_identifier}
use jenezis.Storage.Graph.Schema.{
  Index, vector, property, Database, is_existing, run_create, create_index, initialize_schema,
}

-- The indexes that the engine asks for.
abbrev pub schema : List Index
schema =
    record {
      kind = vector 1536 (codes "cosine");
      label = codes "Entity";
      property_name = codes "embedding";
    }
    ∷ record {
      kind = vector 1536 (codes "cosine");
      label = codes "Chunk";
      property_name = codes "embedding";
    }
    ∷ record { kind = property; label = codes "Entity"; property_name = codes "id" }
    ∷ record { kind = property; label = codes "Entity"; property_name = codes "canonical_id" }
    ∷ record { kind = property; label = codes "Chunk"; property_name = codes "id" }
    ∷ record { kind = property; label = codes "Document"; property_name = codes "id" }
    ∷ []

-- What FalkorDB documents: a statement adds its index, and where the index is there already it is
-- refused with an error that says so.
pub record IsDocumented (db : Database) : Type 0 where
  pub adds :
      (index : Index) (indexes : List Index)
      → (db.create index indexes ≡ ok (index ∷ indexes))
        ⊎ (In index indexes
            × (error : Error) × (db.create index indexes ≡ raise error)
            × (is_existing (db.lower (db.message error)) ≡ true))
  pub refuses :
      (index : Index) (indexes : List Index)
      → In index indexes
      → (error : Error) × (db.create index indexes ≡ raise error)
        × (is_existing (db.lower (db.message error)) ≡ true)

module _ (db : Database) (documented : IsDocumented db) where
  -- The statement returns, keeps the indexes that are there, and its own is there afterwards.
  run_create-lem :
      (index : Index) (indexes : List Index)
      → (out : List Index) × (run_create db index indexes ≡ (ok tt, out))
        × In index out
        × ((i : Index) → In i indexes → In i out)
  unfolding run_create
  run_create-lem index indexes = elim (documented.adds index indexes) [
    | inl added ↦ (index ∷ indexes, rw (run_create, added) refl, inl refl, λ i h. inr h)
    | inr (present, error, raised, existing) ↦
        (indexes, rw (run_create, raised, existing) refl, present, λ i h. h)
  ]

  run_create-again :
      (index : Index) (indexes : List Index)
      → In index indexes
      → run_create db index indexes ≡ (ok tt, indexes)
  unfolding run_create
  run_create-again index indexes present =
      let (error, raised, existing) = documented.refuses index indexes present in
      rw (run_create, raised, existing) refl

  run_all : List Index → List Index → Result (Unit {0}) × List Index
  run_all [] indexes = (ok tt, indexes)
  run_all (index ∷ rest) indexes = run_create db index indexes >=> λ _. run_all rest

  run_all_lem :
      (rest indexes : List Index)
      → (out : List Index) × (run_all rest indexes ≡ (ok tt, out))
        × All (λ i. In i out) rest
        × ((i : Index) → In i indexes → In i out)
  unfolding run_all
  run_all_lem [] indexes = (indexes, refl, tt, λ i h. h)
  run_all_lem (index ∷ rest) indexes =
      let (mid, ran, made, kept) = run_create-lem index indexes in
      let (out, ran', made', kept') = run_all_lem rest mid in
      (out, rw (ran, ran') refl, (kept' index made, made'), λ i h. kept' i (kept i h))

  run_all-again :
      (rest indexes : List Index)
      → All (λ i. In i indexes) rest
      → run_all rest indexes ≡ (ok tt, indexes)
  unfolding run_all
  run_all-again [] indexes h = refl
  run_all-again (index ∷ rest) indexes h =
      rw (run_create-again index indexes h.0, run_all-again rest indexes h.1) refl

  initialize-run_all :
      (indexes : List Index) → initialize_schema db indexes ≡ run_all schema indexes
  unfolding initialize_schema create_index run_all validate_identifier matches_pattern is_letter
      is_identifier_char
  initialize-run_all indexes = refl

  -- From whatever indexes there are, the start returns and the six indexes are there afterwards; a
  -- second start returns too and changes nothing.
  pub initialize_schema_twice :
      (indexes : List Index)
      → (out : List Index) × (initialize_schema db indexes ≡ (ok tt, out))
        × All (λ i. In i out) schema
        × ((i : Index) → In i indexes → In i out)
        × (initialize_schema db out ≡ (ok tt, out))
  initialize_schema_twice indexes =
      let (out, ran, made, kept) = run_all_lem schema indexes in
      (
        out,
        initialize-run_all indexes ∙ ran,
        made,
        kept,
        initialize-run_all out ∙ run_all-again schema out made,
      )
