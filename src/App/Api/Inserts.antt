-- ===== src/App/Api/Inserts.antt =====
-- Inserts of documents and ontologies keep the constraints.
use jenezis.Prelude.{
  ℕ, suc, ◌<◌, ◌≡◌, refl, ap, ◌∙◌, true, false, not, ◌&&◌, Bool-cases, inl, inr, List, [], ◌∷◌,
  ◌++◌, map, elem, elem-append, All, All-append, All-map, Distinct-snoc, Option, none, some,
  Text_eq, ℕ_eq, nat_eq_iff, arith,
}
use jenezis.Storage.Metadata.{Document}
use jenezis.App.Api.{Server, Ontology, NewDocument, refers, new_row, hashes, insert_document}
use jenezis.App.Api.Tables.{ids, IsTable}

pub map-snoc :
    {A C : Type 0} (f : A → C) (xs : List A) (x : A) → map f (xs ++ x ∷ []) ≡ map f xs ++ f x ∷ []
map-snoc f [] x = refl
map-snoc f (y ∷ xs) x = ap (◌∷◌ (f y)) (map-snoc f xs x)

pub not-drawn :
    (next : ℕ) (db : List Document) → All (λ d. d.id < next) db → elem next (ids db) ≡ false
not-drawn next [] h = refl
not-drawn next (d ∷ db) h = ground (arith, not-drawn next db h.1, nat_eq_iff next d.id)

pub weaken_drawn :
    (next : ℕ) (db : List Document) → All (λ d. d.id < next) db → All (λ d. d.id < suc next) db
weaken_drawn next db h = All-map _ _ (λ d lt. omega arith) db h

module _ {B O : Type 0} where
  -- The constraints of the table of documents of a server.
  abbrev pub HasTable : Server B O → Type 0
  HasTable s = IsTable s.document_ids s.ontologies s.world.documents

  -- Whether the row is stored or refused, the constraints hold afterwards.
  pub insert_document-HasTable :
      (new : NewDocument) (s : Server B O) → HasTable s → HasTable (insert_document new s).1
  unfolding insert_document
  insert_document-HasTable new s t =
      elim (Bool-cases (
        refers new.domain_config_id s.ontologies
        && not (elem new.document_hash (hashes s.world.documents)))) [
          | inl good ↦ rw good (record {
            drawn =
                All-append _ s.world.documents _ (weaken_drawn s.document_ids _ t.drawn)
                  (omega arith, tt);
            distinct_ids =
                rw (map-snoc (λ d. d.id) s.world.documents (new_row s.document_ids new)) (
                  Distinct-snoc (ids s.world.documents) s.document_ids t.distinct_ids
                    (not-drawn s.document_ids s.world.documents t.drawn));
            distinct_hashes =
                rw (map-snoc (λ d. d.document_hash) s.world.documents (new_row s.document_ids new))
                  (Distinct-snoc (hashes s.world.documents) new.document_hash t.distinct_hashes
                    (ground arith));
            referenced = All-append _ s.world.documents _ t.referenced (ground arith, tt);
          })
          | inr bad ↦ rw bad (record {
            drawn = weaken_drawn s.document_ids s.world.documents t.drawn;
            distinct_ids = t.distinct_ids;
            distinct_hashes = t.distinct_hashes;
            referenced = t.referenced;
          })
        ]

-- More ontologies can be referred to.
pub refers-snoc :
    (id : Option ℕ) (ontologies : List Ontology) (o : Ontology)
    → refers id ontologies ≡ true
    → refers id (ontologies ++ o ∷ []) ≡ true
refers-snoc none ontologies o h = cc
refers-snoc (some id) ontologies o h =
    rw (map-snoc (λ o. o.id) ontologies o)
      (elem-append id (map (λ o. o.id) ontologies) (o.id ∷ []) ∙ ground arith)
