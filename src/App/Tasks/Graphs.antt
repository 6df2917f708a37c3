-- ===== src/App/Tasks/Graphs.antt =====
-- What the writes of the tasks keep of the graph, the tasks keep, whether they return or raise.
use jenezis.Prelude.{
  ◌>=>◌, pure, after->=>, ℕ, ◌≡◌, refl, sym, subst, ◌∙◌, Bool-cases, inl, inr, Option-cases, Bool,
  map, List, [], ◌∷◌, Option, none, some, Text, Text_eq, codes, lookup, nat_eq, Eq, Result, ok,
  raise, Error, >>=-eq-ok, invalid_transition, Json,
}
use jenezis.Storage.Status.{DocumentStatus, processing, completed, failed, deleting}
use jenezis.Storage.Metadata.{Document, get_document_by_id, update_document_status}
use jenezis.Storage.Rows.{Value, Value_eq, Key}
use jenezis.Storage.Graph.{Graph}
use jenezis.Storage.Graph.Engine.{sanitize_rows, upsert_chunks, upsert_document}
use jenezis.Storage.Graph.Store.{add_entities_and_relations}
use jenezis.Storage.Graph.Engine.{Row, upsert_chunk_rows, delete_document, garbage_collect_orphans}
use jenezis.Ingestion.Records.{Entity, Relation}
use jenezis.Ingestion.Chunker.{Chunk, chunk}
use jenezis.Ingestion.Extractor.{is_falsy}
use jenezis.Ingestion.Resolver.{Unresolved}
use jenezis.App.Tasks.{World, written, set_document_status}
use jenezis.App.Tasks.Process.{
  Setup, entity_doc, remap, write_graph, harmonize, embed_chunks, write_chunks, extract, validate,
  ingest_chunks, ingest, process_document,
}
use jenezis.App.Tasks.Retries.{swallow, handle_dead_letter}
use jenezis.App.Tasks.Delete.{
  is_invalid_transition, remove, delete_graph, run_delete, on_failure, delete_document_task,
}
use jenezis.App.Tasks.Garbage.{run_garbage_collection}

-- A change of a status leaves the graph.
written-graph :
    {O : Type 0} (m : Result (Option Document × List Document)) (w : World O)
    → (written m w).1.graph ≡ w.graph
written-graph (ok (_, documents)) w = refl
written-graph (raise error) w = refl

swallow-graph : {O : Type 0} (m : Result (Unit {0}) × World O) → (swallow m).1.graph ≡ m.1.graph
swallow-graph (ok u, w) = refl
swallow-graph (raise invalid_transition, w) = refl
swallow-graph (raise _, w) = refl

pub handle_dead_letter-graph :
    {O : Type 0} (kwargs : List (Text × ℕ)) (message : Text) (w : World O)
    → (handle_dead_letter kwargs message w).1.graph ≡ w.graph
unfolding handle_dead_letter
handle_dead_letter-graph kwargs message w = elim (Option-cases (lookup (codes "doc_id") kwargs)) [
  | inl absent ↦ rw (handle_dead_letter, absent) refl
  | inr (i, found) ↦ elim (Bool-cases (nat_eq i 0)) [
    | inl zero' ↦ rw (handle_dead_letter, found, zero') refl
    | inr other ↦
        rw (handle_dead_letter, found, other)
          (swallow-graph (set_document_status i failed (some message) w)
            ∙ written-graph (update_document_status w.documents i failed (some message)) w)
  ]
]

-- What holds of a graph after every write of the tasks, where it holds before.
pub record IsKept {O : Type 0} ⦃e : Eq O⦄ (Q : Graph O → Type 0) : Type 0 where
  pub documents : (id : ℕ) (filename : Text) (g : Graph O) → Q g → Q (upsert_document id filename g)
  pub chunks : (id : ℕ) (rows : List (Row O)) (g : Graph O) → Q g → Q (upsert_chunk_rows id rows g)
  pub entities :
      (is_invalid : O → Bool) (es : List Entity) (resolved_map : List (Text × ℕ))
      (relations : List (Relation Text)) (g : Graph O)
      → Q g
      → Q
          (add_entities_and_relations is_invalid
            (map entity_doc es)
            (remap resolved_map relations)
            g).1
  pub deletions : (id : ℕ) (g : Graph O) → Q g → Q (delete_document id g)
  pub collections : (g : Graph O) → Q g → Q (garbage_collect_orphans g).0

module _ {O : Type 0} ⦃e : Eq O⦄ (Q : Graph O → Type 0) (kept : IsKept Q) where
  abbrev pub HasGraph : World O → Type 0
  HasGraph w = Q w.graph

  status-HasGraph :
      (i : ℕ) (s : DocumentStatus) (message : Option Text) (w : World O)
      → HasGraph w
      → HasGraph (set_document_status i s message w).1
  status-HasGraph i s message w h =
      subst Q (sym (written-graph (update_document_status w.documents i s message) w)) h

  upsert_chunks-kept :
      (is_invalid : O → Bool) (id : ℕ) (chunks : List (List (Key × Value O))) (g out : Graph O)
      → upsert_chunks is_invalid id chunks g ≡ ok out
      → Q g
      → Q out
  unfolding upsert_chunks
  upsert_chunks-kept is_invalid id chunks g out h w =
      let (rows, _, f) = >>=-eq-ok (sanitize_rows is_invalid chunks) _ h in
      subst Q (cc f) (kept.chunks id rows g w)

  pub run_garbage_collection-HasGraph :
      (w : World O) → HasGraph w → HasGraph (run_garbage_collection w).1
  unfolding run_garbage_collection
  run_garbage_collection-HasGraph w h = kept.collections w.graph h

module _ {T O S : Type 0} ⦃e : Eq O⦄ (Q : Graph O → Type 0) (kept : IsKept Q)
    (setup : Setup T O S) where
  write_graph-HasGraph :
      (entities : List Entity) (relations : List (Relation Text)) (first : Chunk)
      (chunks : List Chunk) (resolution : List (Text × ℕ) × List (Unresolved S)) (w : World O)
      → (HasGraph Q kept) w
      → (HasGraph Q kept) (write_graph setup entities relations first chunks resolution w).1
  write_graph-HasGraph entities relations first chunks (resolved_map, unresolved_items) w h =
      after->=> (HasGraph Q kept) _ _
        (kept.entities setup.is_invalid entities resolved_map relations w.graph h) (λ _ w' h'. h')

  harmonize-HasGraph :
      (i : ℕ) (first : Chunk) (chunks : List Chunk) (config : Json)
      (validated : List Entity × List (Relation Text)) (w : World O)
      → (HasGraph Q kept) w
      → (HasGraph Q kept) (harmonize setup i first chunks config validated w).1
  harmonize-HasGraph i first chunks config ([], relations) w h =
      status-HasGraph Q kept i completed _ w h
  harmonize-HasGraph i first chunks config (entity ∷ entities, relations) w h =
      after->=> (HasGraph Q kept)
        (pure _ w >=> λ resolution.
          write_graph setup (entity ∷ entities) relations first chunks resolution)
        _
        (after->=> (HasGraph Q kept) (pure _ w) _ h (λ resolution w' h'.
          write_graph-HasGraph (entity ∷ entities) relations first chunks resolution w' h'))
        (λ _ w' h'. status-HasGraph Q kept i completed none w' h')

  ingest_chunks-HasGraph :
      (doc : Document) (config : Json) (chunks : List Chunk) (w : World O)
      → (HasGraph Q kept) w
      → (HasGraph Q kept) (ingest_chunks setup doc config chunks w).1
  ingest_chunks-HasGraph doc config [] w h = status-HasGraph Q kept doc.id completed _ w h
  ingest_chunks-HasGraph doc config (first ∷ rest) w h = go (embed_chunks setup (first ∷ rest))
    where
      written' :
          (docs : List (List (Key × Value O))) (m : Result (Graph O))
          → upsert_chunks setup.is_invalid doc.id docs (upsert_document doc.id doc.filename w.graph)
            ≡ m
          → (HasGraph Q kept)
              (pure m (record w { graph = upsert_document doc.id doc.filename w.graph })
                >=> extract setup (first ∷ rest) config
                >=> λ extracted.
                    harmonize setup doc.id first
                      (first ∷ rest)
                      config
                      (validate setup config extracted)).1
      written' docs (raise error) f = kept.documents doc.id doc.filename w.graph h
      written' docs (ok g) f =
          after->=> (HasGraph Q kept)
            (extract setup (first ∷ rest) config g
              (record w { graph = upsert_document doc.id doc.filename w.graph }))
            _
            (upsert_chunks-kept Q kept setup.is_invalid doc.id docs _ g f
              (kept.documents doc.id doc.filename w.graph h))
            (λ extracted w' h'.
              harmonize-HasGraph doc.id first (first ∷ rest) config
                (validate setup config extracted) w' h')

      go :
          (m : Result (List (List (Key × Value O))))
          → (HasGraph Q kept)
              (pure m w
                >=> write_chunks setup doc
                >=> extract setup (first ∷ rest) config
                >=> λ extracted.
                    harmonize setup doc.id first
                      (first ∷ rest)
                      config
                      (validate setup config extracted)).1
      go (raise error) = h
      go (ok docs) = written' docs _ refl

  ingest-HasGraph :
      (doc : Document) (config : Option Json) (w : World O)
      → (HasGraph Q kept) w
      → (HasGraph Q kept) (ingest setup doc config w).1
  ingest-HasGraph doc none w h = h
  ingest-HasGraph doc (some config) w h = elim (Bool-cases (is_falsy config)) [
    | inl falsy ↦ rw falsy h
    | inr truthy ↦ rw truthy (
        after->=> (HasGraph Q kept) (pure (setup.parse doc) w) _ h (λ document_text w' h'.
          ingest_chunks-HasGraph doc config (chunk setup.encoder setup.chunker document_text) w'
            h'))
  ]

  pub process_document-HasGraph :
      (i : ℕ) (w : World O) → (HasGraph Q kept) w → (HasGraph Q kept) (process_document setup i w).1
  unfolding process_document
  process_document-HasGraph i w h = elim (Option-cases (get_document_by_id w.documents i)) [
    | inl missing ↦ rw (process_document, missing) h
    | inr (doc, found) ↦
        rw (process_document, found)
          (after->=> (HasGraph Q kept) (set_document_status i processing none w) _
            (status-HasGraph Q kept i processing none w h)
            (λ _ w' h'. ingest-HasGraph doc (setup.config_of doc) w' h'))
  ]

module _ {O : Type 0} ⦃e : Eq O⦄ (Q : Graph O → Type 0) (kept : IsKept Q)
    (delete_object : Document → Result (Unit {0})) (i : ℕ) where
  remove-HasGraph :
      (found : Option Document) (w : World O)
      → (HasGraph Q kept) w
      → (HasGraph Q kept) (remove delete_object i found w).1
  remove-HasGraph none w h = h
  remove-HasGraph (some doc) w h =
      after->=> (HasGraph Q kept) (pure (delete_object doc) w) _ h (λ _ w' h'. h')

  pub delete_document_task-HasGraph :
      (message : Error → Text) (w : World O)
      → (HasGraph Q kept) w
      → (HasGraph Q kept) (delete_document_task delete_object message i w).1
  unfolding delete_document_task
  delete_document_task-HasGraph message w h = go (run_delete delete_object i w) (
      after->=> (HasGraph Q kept) (set_document_status i deleting none w) _
        (status-HasGraph Q kept i deleting none w h)
        (λ _ w' h'.
          remove-HasGraph (get_document_by_id w'.documents i) (delete_graph delete_object i w')
            (kept.deletions i w'.graph h')))
    where
      go :
          (m : Result (Unit {0}) × World O)
          → (HasGraph Q kept) m.1
          → (HasGraph Q kept) (on_failure delete_object i message m).1
      go (ok u, w') k = k
      go (raise error, w') k = elim (Bool-cases (is_invalid_transition error)) [
        | inl refused ↦ rw refused k
        | inr other ↦ rw other (status-HasGraph Q kept i failed (some (message error)) w' k)
      ]
