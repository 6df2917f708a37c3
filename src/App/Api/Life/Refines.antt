-- ===== src/App/Api/Life/Refines.antt =====
-- The running system refines the documented life of a document.
use jenezis.Prelude.{
  ℕ, ◌≡◌, ◌≢◌, refl, subst, not, ◌&&◌, Bool-cases, inl, inr, map, elem, Json, Text, Text_eq, Eq,
  ℕ_eq,
}
use jenezis.Storage.Status.{DocumentStatus}
use jenezis.App.Tasks.Keeps.{
  process_document-keeps, handle_dead_letter-keeps, delete_document_task-keeps,
}
use jenezis.App.Tasks.Garbage.{run_garbage_collection}
use jenezis.App.Api.{Server, NewDocument, new_row, hashes, refers, insert_document, send}
use jenezis.App.Api.Ontologies.{insert_ontology}
use jenezis.App.Api.Inserts.{HasTable, insert_document-HasTable}
use jenezis.App.Api.Handlers.{
  IsClosed, put_object-closed, upload_document-closed, update_document-closed,
  delete_document-closed, create_ontology-closed,
}
use jenezis.App.Api.Consistent.{IsConsistent}
use jenezis.App.Api.Steps.{
  Step, upload, update, delete, ontology, process, report, collect, remove, Reach, here, next,
  Reach-IsConsistent,
}
use jenezis.App.Api.Life.{
  Phase, unborn, live, gone, Life, start, accepted, refused, changed, deleted, phase_in, phase,
}
use jenezis.App.Api.Life.Rows.{Life-Survives, insert-Life}

module _ {B O : Type 0} (p : Phase) (i : ℕ) where
  -- The constraints of the documents, and the life of the identifier so far.
  record Lives (s : Server B O) : Type 0 where
    table : HasTable s
    life : Life p (phase i s)

  insert_document-Lives :
      (new : NewDocument) (t : Server B O) → Lives t → Lives (insert_document new t).1
  unfolding insert_document
  insert_document-Lives new t h = record {
    table = insert_document-HasTable new t h.table;
    life =
        let grown = insert-Life p i t.document_ids t.world.documents h.table.drawn h.life in
        elim (Bool-cases (
          refers new.domain_config_id t.ontologies
          && not (elem new.document_hash (hashes t.world.documents)))) [
            | inl good ↦ rw (insert_document, good) (grown.1 (new_row t.document_ids new) refl refl)
            | inr bad ↦ rw (insert_document, bad) grown.0
          ];
  }

  Lives-IsClosed : IsClosed Lives
  unfolding send
  Lives-IsClosed = record {
    inserts = insert_document-Lives;
    puts = put_object-closed Lives (λ objects t h. record { table = h.table; life = h.life });
    sends = λ message t h. record { table = h.table; life = h.life };
  }

  insert_ontology-documents :
      (name : Text) (schema_json : Json) (s : Server B O)
      → Life p (phase i s)
      → Life p (phase i (insert_ontology name schema_json s).1)
  unfolding insert_ontology
  insert_ontology-documents name schema_json s l =
      elim (Bool-cases (elem name (map (λ o. o.name) s.ontologies))) [
        | inl taken ↦ rw (insert_ontology, taken) l
        | inr new ↦ rw (insert_ontology, new) l
      ]

  module _ ⦃e : Eq O⦄ where
    Step-Life :
        {s t : Server B O} → IsConsistent s → Step s t → Life p (phase i s) → Life p (phase i t)
    Step-Life {s} c (upload web file ontology_id) l =
        (upload_document-closed Lives Lives-IsClosed s web file ontology_id
          (record { table = c.documents; life = l })).life
    Step-Life {s} c (update web document_id file ontology_id) l =
        (update_document-closed Lives Lives-IsClosed s web document_id file ontology_id
          (record { table = c.documents; life = l })).life
    Step-Life {s} c (delete web document_id) l =
        (delete_document-closed Lives Lives-IsClosed s web document_id
          (record { table = c.documents; life = l })).life
    Step-Life {s} c (ontology refresh name schema_json) l =
        create_ontology-closed (λ t. Life p (phase i t)) refresh name schema_json s
          (insert_ontology-documents name schema_json s l)
    Step-Life {s} c (process setup document_id) l =
        process_document-keeps (λ db. Life p (phase_in s.document_ids db i)) document_id
          (Life-Survives p i s.document_ids document_id) setup s.world l
    Step-Life {s} c (report kwargs message) l =
        handle_dead_letter-keeps (λ db. Life p (phase_in s.document_ids db i))
          (Life-Survives p i s.document_ids) kwargs message s.world l
    Step-Life {s} c collect l = unfold run_garbage_collection in l
    Step-Life {s} c (remove delete_object message document_id objects) l =
        delete_document_task-keeps (λ db. Life p (phase_in s.document_ids db i)) document_id
          (Life-Survives p i s.document_ids document_id) delete_object message s.world l

-- Nothing follows the phase in which an identifier is used up.
gone-stays : {q : Phase} → Life gone q → q ≡ gone
gone-stays start = refl
gone-stays (accepted l) = absurd (unborn-ne-gone (gone-stays l))
  where
    unborn-ne-gone : unborn ≢ gone
    unborn-ne-gone h = cc h
gone-stays (refused l) = refl
gone-stays (changed {a} l listed) = absurd (live-ne-gone a (gone-stays l))
  where
    live-ne-gone : (a : DocumentStatus) → live a ≢ gone
    live-ne-gone a h = cc h
gone-stays (deleted l) = refl

lives :
    {B O : Type 0}
    → ⦃e : Eq O⦄ → (s : Server B O) (i : ℕ) {t : Server B O} → IsConsistent s
    → Reach s t
    → Life (phase i s) (phase i t)
lives s i c here = start
lives s i c (next r st) = Step-Life (phase i s) i (Reach-IsConsistent c r) st (lives s i c r)

-- From a consistent server, whatever requests, attempts of tasks, reports and collections come in
-- whatever order and with whatever answers, each identifier of a document lives as the table of the
-- statuses says: it is accepted as PENDING or used up, its status moves along the lines of the table, its
-- row goes only while it is DELETING, and an identifier that is used up is never used again.
pub Reach-Life :
    {B O : Type 0}
    → ⦃e : Eq O⦄ → {s t : Server B O} → IsConsistent s
    → Reach s t
    → (i : ℕ) → Life (phase i s) (phase i t) × (phase i s ≡ gone → phase i t ≡ gone)
Reach-Life {s} {t} c r i =
    let l = lives s i c r in (l, λ used. gone-stays (subst (λ q. Life q (phase i t)) used l))
