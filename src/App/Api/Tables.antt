-- ===== src/App/Api/Tables.antt =====
-- The constraints of the table of documents, and the writes that keep them.
use jenezis.Prelude.{
  none, not, ◌==◌, ℕ, ◌<◌, ◌≡◌, refl, sym, ap, ap₂, subst, Bool, true, false, Bool-cases, inl, inr,
  List, [], ◌∷◌, map, filter, elem, All, All-map, Distinct, Option, some, Text, Text_eq, ℕ_eq,
  nat_eq, nat_eq_iff, Eq, ok, arith,
}
use jenezis.Storage.Status.{DocumentStatus}
use jenezis.Storage.Metadata.{
  Document, get_document_by_id, write_document, set_status, update_document_status,
}
use jenezis.Storage.Metadata.Updates.{get_document_by_id-id, update_cases}
use jenezis.App.Api.{Ontology, refers, hashes}

abbrev pub ids : List Document → List ℕ
ids = map (λ d. d.id)

pub get_document_by_id-absent :
    (i : ℕ) (db : List Document) → elem i (ids db) ≡ false → get_document_by_id db i ≡ none
unfolding get_document_by_id
get_document_by_id-absent i [] h = refl
get_document_by_id-absent i (d ∷ db) h =
    ground (arith, get_document_by_id-absent i db, nat_eq_iff i d.id, nat_eq_iff d.id i)

-- A row with another identifier survives a deletion.
pub get-filter :
    (i j : ℕ) (db : List Document)
    → nat_eq j i ≡ false
    → get_document_by_id (filter (λ d. not (d.id == i)) db) j ≡ get_document_by_id db j
unfolding get_document_by_id
get-filter i j [] h = refl
get-filter i j (d ∷ db) h =
    ground (arith, get-filter i j db h, nat_eq_iff d.id i, nat_eq_iff d.id j)

-- The identifiers were drawn from a sequence that stands at `next`, no identifier and no hash occurs
-- twice, and each row refers to an ontology.
pub record IsTable (next : ℕ) (ontologies : List Ontology) (db : List Document) : Type 0 where
  pub drawn : All (λ d. d.id < next) db
  pub distinct_ids : Distinct (ids db)
  pub distinct_hashes : Distinct (hashes db)
  pub referenced : All (λ d. refers d.domain_config_id ontologies ≡ true) db

-- What a map of a filtered list holds, the map of the whole list holds.
module _ {A C : Type 0} ⦃e : Eq C⦄ (f : A → C) (p : A → Bool) where
  elem-map-filter :
      (c : C) (xs : List A) → elem c (map f xs) ≡ false → elem c (map f (filter p xs)) ≡ false
  elem-map-filter c [] h = refl
  elem-map-filter c (x ∷ xs) h = ground (arith, elem-map-filter c xs)

  Distinct-map-filter : (xs : List A) → Distinct (map f xs) → Distinct (map f (filter p xs))
  Distinct-map-filter [] h = tt
  Distinct-map-filter (x ∷ xs) h = elim (Bool-cases (p x)) [
    | inl kept ↦ rw kept (elem-map-filter (f x) xs h.0, Distinct-map-filter xs h.1)
    | inr gone ↦ rw gone (Distinct-map-filter xs h.1)
  ]

All-filter :
    {A : Type 0} (P : A → Type 0) (p : A → Bool) (xs : List A) → All P xs → All P (filter p xs)
All-filter P p [] h = tt
All-filter P p (x ∷ xs) h = elim (Bool-cases (p x)) [
  | inl kept ↦ rw kept (h.0, All-filter P p xs h.1)
  | inr gone ↦ rw gone (All-filter P p xs h.1)
]

pub filter-IsTable :
    {next : ℕ} {ontologies : List Ontology} (p : Document → Bool) (db : List Document)
    → IsTable next ontologies db
    → IsTable next ontologies (filter p db)
filter-IsTable p db t = record {
  drawn = All-filter _ p db t.drawn;
  distinct_ids = Distinct-map-filter (λ d. d.id) p db t.distinct_ids;
  distinct_hashes = Distinct-map-filter (λ d. d.document_hash) p db t.distinct_hashes;
  referenced = All-filter _ p db t.referenced;
}

absent :
    (i : ℕ) (db : List Document) (doc : Document)
    → elem i (ids db) ≡ false
    → All (λ d. nat_eq d.id i ≡ true → d ≡ doc) db
absent i [] doc h = tt
absent i (d ∷ db) doc h = (
  λ same. absurd (ground (arith, nat_eq_iff d.id i, nat_eq_iff i d.id)),
  absent i db doc (ground arith),
)

-- With distinct identifiers the row that is found is the only one of its identifier.
only :
    (i : ℕ) (db : List Document) (doc : Document)
    → Distinct (ids db)
    → get_document_by_id db i ≡ some doc
    → All (λ d. nat_eq d.id i ≡ true → d ≡ doc) db
unfolding get_document_by_id
only i [] doc h f = tt
only i (d ∷ db) doc h f = elim (Bool-cases (nat_eq d.id i)) [
  | inl same ↦
      let here : d ≡ doc = ground arith in
      (λ _. here, absent i db doc (ground (arith, nat_eq_iff d.id i)))
  | inr other ↦ (λ same. cc, only i db doc h.1 (ground arith))
]

module _ (doc : Document) where
  ids-write : (db : List Document) → ids (write_document doc db) ≡ ids db
  unfolding write_document
  ids-write [] = refl
  ids-write (d ∷ db) = ground (arith, nat_eq_iff d.id doc.id, ids-write db)

  hashes-write :
      (db : List Document)
      → All (λ d. nat_eq d.id doc.id ≡ true → d.document_hash ≡ doc.document_hash) db
      → hashes (write_document doc db) ≡ hashes db
  unfolding write_document
  hashes-write [] h = refl
  hashes-write (d ∷ db) h = elim (Bool-cases (nat_eq d.id doc.id)) [
    | inl same ↦ rw same (ap₂ (◌∷◌) (sym (h.0 same)) (hashes-write db h.1))
    | inr other ↦ rw other (ap (◌∷◌ d.document_hash) (hashes-write db h.1))
  ]

  All-write :
      (P : Document → Type 0) (db : List Document)
      → P doc
      → All P db
      → All P (write_document doc db)
  unfolding write_document
  All-write P [] p h = tt
  All-write P (d ∷ db) p h = elim (Bool-cases (nat_eq d.id doc.id)) [
    | inl same ↦ rw same (p, All-write P db p h.1)
    | inr other ↦ rw other (h.0, All-write P db p h.1)
  ]

All-found :
    (P : Document → Type 0) (i : ℕ) (db : List Document) (doc : Document)
    → All P db
    → get_document_by_id db i ≡ some doc
    → P doc
unfolding get_document_by_id
All-found P i [] doc h f = cc
All-found P i (d ∷ db) doc h f = elim (Bool-cases (nat_eq d.id i)) [
  | inl same ↦ let here : d ≡ doc = ground arith in subst P here h.0
  | inr other ↦ All-found P i db doc h.1 (ground arith)
]

-- An update of a status keeps the constraints.
pub update_document_status-IsTable :
    {next : ℕ} {ontologies : List Ontology} (db : List Document) (i : ℕ) (s : DocumentStatus)
    (message : Option Text) {r : Option Document} {db' : List Document}
    → IsTable next ontologies db
    → update_document_status db i s message ≡ ok (r, db')
    → IsTable next ontologies db'
unfolding set_status
update_document_status-IsTable {next} {ontologies} db i s message {r} {db'} t e =
    elim (update_cases db i s message e) [
      | inl (_, _, same) ↦ rw same t
      | inr (doc, found, _, _, written) ↦
          let new : Document = set_status doc s message in
          let same_id = get_document_by_id-id db i doc found in
          rw written (record {
            drawn = All-write new _ db (All-found _ i db doc t.drawn found) t.drawn;
            distinct_ids = rw (ids-write new db) t.distinct_ids;
            distinct_hashes = rw (hashes-write new db (hashes_same doc found)) t.distinct_hashes;
            referenced = All-write new _ db (All-found _ i db doc t.referenced found) t.referenced;
          })
    ]
  where
    hashes_same :
        (doc : Document)
        → get_document_by_id db i ≡ some doc
        → All (λ d. nat_eq d.id doc.id ≡ true → d.document_hash ≡ doc.document_hash) db
    hashes_same doc found =
        All-map _ _
          (λ d same e'.
            ap (λ x. x.document_hash) (same (ground (arith, get_document_by_id-id db i doc found))))
          db (only i db doc t.distinct_ids found)
