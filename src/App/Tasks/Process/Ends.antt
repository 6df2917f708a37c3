-- ===== src/App/Tasks/Process/Ends.antt =====
-- What holds of the documents after an attempt, whether it returns or raises.
use jenezis.Prelude.{
  ◌>=>◌, pure, ℕ, ◌≡◌, sym, subst, inl, inr, Bool-cases, List, [], ◌∷◌, map, is_empty, Option, none,
  some, Text, Json, Result, ok, raise, Eq, ℕ_eq,
}
use jenezis.Storage.Status.{DocumentStatus, processing, completed, document_status_eq}
use jenezis.Storage.Metadata.{Document, get_document_by_id}
use jenezis.Storage.Metadata.Updates.{get_document_by_id-id}
use jenezis.Storage.Graph.Store.{add_entities_and_relations}
use jenezis.Ingestion.Records.{Entity, Relation}
use jenezis.Ingestion.Chunker.{Chunk, chunk}
use jenezis.Ingestion.Resolver.{Unresolved}
use jenezis.Ingestion.Extractor.{is_falsy}
use jenezis.App.Tasks.{World, set_document_status}
use jenezis.App.Tasks.Process.{
  Setup, entity_doc, remap, write_graph, harmonize, embed_chunks, write_chunks, extract, validate,
  ingest_chunks, ingest, process_document,
}

-- The document stands in the table with the status.
-- The document stands in the table with the status.
abbrev pub HasStatus : ℕ → DocumentStatus → List Document → Type 0
HasStatus i s db = (d : Document) × (get_document_by_id db i ≡ some d) × (d.status ≡ s)

abbrev pub IsCompleted : {O : Type 0} → ℕ → World O → Type 0
IsCompleted i w = HasStatus i completed w.documents

-- Where a step returns, the table of documents that it leaves is as `P` says; where it raises, as `E`.
abbrev pub Split : {O A : Type 0} (P E : List Document → Type 0) → Result A × World O → Type 0
Split P E (ok a, w) = P w.documents
Split P E (raise error, w) = E w.documents

pub record Ends {O A : Type 0} (P E : List Document → Type 0) (m : Result A × World O)
    : Type 0 where
  pub split : Split P E m

pub Ends-of :
    {O A : Type 0} (P : List Document → Type 0) (m : Result A × World O)
    → P m.1.documents
    → Ends P P m
Ends-of P (ok a, w) h = record { split = h }
Ends-of P (raise error, w) h = record { split = h }

pub Ends-cases :
    {O A : Type 0} (P : List Document → Type 0) (m : Result A × World O)
    → Ends P P m
    → P m.1.documents
Ends-cases P (ok a, w) h = h.split
Ends-cases P (raise error, w) h = h.split

pub Ends-bind :
    {O A B : Type 0} (P Q E : List Document → Type 0) (m : Result A × World O)
    (f : A → World O → Result B × World O)
    → Ends P E m
    → ((a : A) (w : World O) → P w.documents → Ends Q E (f a w))
    → Ends Q E (m >=> f)
Ends-bind P Q E (ok a, w) f h k = k a w h.split
Ends-bind P Q E (raise error, w) f h k = record { split = h.split }

-- A step that leaves the table alone.
pub Ends-pure :
    {O A : Type 0} (P E : List Document → Type 0) (m : Result A) (w : World O)
    → ((db : List Document) → P db → E db)
    → P w.documents
    → Ends P E (m, w)
Ends-pure P E (ok a) w f h = record { split = h }
Ends-pure P E (raise error) w f h = record { split = f w.documents h }

-- The way from the first status to the last: `P` holds while the document is processed, `Q` where its
-- last status is written, and `E` where a step raised.
module _ {T O S : Type 0} ⦃e : Eq O⦄ (setup : Setup T O S) (i : ℕ) (P Q E : List Document → Type 0)
    (fails : (db : List Document) → P db → E db)
    (complete : (message : Option Text) (w : World O)
      → P w.documents
      → Ends Q E (set_document_status i completed message w)) where
  write_graph-Ends :
      (entities : List Entity) (relations : List (Relation Text)) (first : Chunk)
      (chunks : List Chunk) (r : List (Text × ℕ) × List (Unresolved S)) (w : World O)
      → P w.documents
      → Ends P E (write_graph setup entities relations first chunks r w)
  write_graph-Ends entities relations first chunks (resolved_map, items) w h =
      let (result, graph) =
        add_entities_and_relations setup.is_invalid (map entity_doc entities)
          (remap resolved_map relations) w.graph in
      Ends-bind P P E (result, record w { graph = graph }) _
        (Ends-pure P E result (record w { graph = graph }) fails h)
        (λ _ w' h'. record { split = h' })

  harmonize-Ends :
      (first : Chunk) (chunks : List Chunk) (config : Json)
      (found : List Entity × List (Relation Text)) (w : World O)
      → P w.documents
      → Ends Q E (harmonize setup i first chunks config found w)
  harmonize-Ends first chunks config (entities, relations) w h =
      elim (Bool-cases (is_empty entities)) [
        | inl empty ↦ rw empty (complete _ w h)
        | inr full ↦ rw full (
            Ends-bind P Q E _ _
              (Ends-bind P P E _ _ (Ends-pure P E _ w fails h)
                (λ r w'. write_graph-Ends entities relations first chunks r w'))
              (λ _ w'. complete none w'))
      ]

  ingest_chunks-Ends :
      (doc : Document) (config : Json) (chunks : List Chunk) (w : World O)
      → doc.id ≡ i
      → P w.documents
      → Ends Q E (ingest_chunks setup doc config chunks w)
  ingest_chunks-Ends doc config [] w same h = rw same (complete _ w h)
  ingest_chunks-Ends doc config (first ∷ rest) w same h =
      let chunks = first ∷ rest in
      let m1 = pure (embed_chunks setup chunks) w in
      let m2 = m1 >=> write_chunks setup doc in
      let l2 : Ends P E m2 =
        Ends-bind P P E m1 (write_chunks setup doc)
          (Ends-pure P E (embed_chunks setup chunks) w fails h)
          (λ docs w' h'.
            Ends-pure P E (write_chunks setup doc docs w').0 (write_chunks setup doc docs w').1
              fails h') in
      let l3 : Ends P E (m2 >=> extract setup chunks config) =
        Ends-bind P P E m2 (extract setup chunks config) l2 (λ graph w' h'.
          Ends-pure P E (extract setup chunks config graph w').0 (record w' { graph = graph }) fails
            h') in
      Ends-bind P Q E (m2 >=> extract setup chunks config) _ l3 (λ found w' h'.
        subst
          (λ j. Ends Q E (harmonize setup j first chunks config (validate setup config found) w'))
          (sym same) (harmonize-Ends first chunks config (validate setup config found) w' h'))

  ingest-Ends :
      (doc : Document) (config : Option Json) (w : World O)
      → doc.id ≡ i
      → P w.documents
      → Ends Q E (ingest setup doc config w)
  ingest-Ends doc none w same h = record { split = fails w.documents h }
  ingest-Ends doc (some config) w same h = elim (Bool-cases (is_falsy config)) [
    | inl empty ↦ rw empty (record { split = fails w.documents h })
    | inr full ↦ rw full (
        Ends-bind P Q E _ _ (Ends-pure P E _ w fails h) (λ document_text w'.
          ingest_chunks-Ends doc config (chunk setup.encoder setup.chunker document_text) w' same))
  ]

  pub process_document-Ends :
      (w : World O) (doc : Document)
      → get_document_by_id w.documents i ≡ some doc
      → Ends P E (set_document_status i processing none w)
      → Ends Q E (process_document setup i w)
  unfolding process_document
  process_document-Ends w doc f start =
      rw (process_document, f)
        (Ends-bind P Q E _ _ start (λ _ w'.
          ingest-Ends doc (setup.config_of doc) w' (get_document_by_id-id w.documents i doc f)))
