-- ===== src/App/Tasks/Delete/Outcome.antt =====
-- What the deletion of a document leaves, and what a failure of the file store leaves.
use jenezis.Prelude.{
  ℕ, ◌≡◌, refl, ◌∙◌, false, not, Bool-cases, inl, inr, List, [], ◌∷◌, filter, none, some, Text,
  Result, ok, raise, Error, invalid_transition, Eq, ◌==◌, nat_eq, nat_eq_iff, arith, ℕ_eq,
}
use jenezis.Storage.Status.{failed, deleting, validate_status_transition}
use jenezis.Storage.Metadata.{
  Document, get_document_by_id, write_document, check_update, set_status, update_document_status,
}
use jenezis.Storage.Metadata.Updates.{get-update_document_status}
use jenezis.Storage.Graph.Engine.{delete_document}
use jenezis.App.Tasks.{World}
use jenezis.App.Tasks.Delete.{is_invalid_transition, delete_row, delete_graph, delete_document_task}

get_document_by_id-filter :
    (i : ℕ) (db : List Document) → get_document_by_id (filter (λ d. not (d.id == i)) db) i ≡ none
unfolding get_document_by_id
get_document_by_id-filter i [] = refl
get_document_by_id-filter i (d ∷ db) = elim (Bool-cases (nat_eq d.id i)) [
  | inl same ↦ rw same (get_document_by_id-filter i db)
  | inr other ↦ rw (other, other) (get_document_by_id-filter i db)
]

update-deleting :
    (db : List Document) (i : ℕ) (doc : Document)
    → get_document_by_id db i ≡ some doc
    → validate_status_transition doc.status deleting ≡ ok tt
    → update_document_status db i deleting none
      ≡ ok (some (set_status doc deleting none), write_document (set_status doc deleting none) db)
unfolding update_document_status check_update
update-deleting db i doc f v = rw (update_document_status, f, v) refl

update-failed :
    (db : List Document) (i : ℕ) (doc : Document) (message : Text)
    → get_document_by_id db i ≡ some doc
    → doc.status ≡ deleting
    → update_document_status db i failed (some message) ≡ raise invalid_transition
unfolding update_document_status check_update validate_status_transition
update-failed db i doc message f s = rw (update_document_status, f, s) refl

-- The document as the deletion sees it.
abbrev pub marked : Document → Document
marked doc = record doc { status = deleting; error_log = none }

module _ {O : Type 0} ⦃e : Eq O⦄ (delete_object : Document → Result (Unit {0})) where
  -- The world after the first session and the write to the graph.
  abbrev pub half_done : ℕ → Document → World O → World O
  half_done id doc w =
      delete_graph delete_object id
        (record w { documents = write_document (set_status doc deleting none) w.documents })

  get-half_done :
      (id : ℕ) (doc : Document) (w : World O)
      → get_document_by_id w.documents id ≡ some doc
      → validate_status_transition doc.status deleting ≡ ok tt
      → get_document_by_id (half_done id doc w).documents id ≡ some (set_status doc deleting none)
  get-half_done id doc w f v =
      get-update_document_status w.documents id deleting none
        (update-deleting w.documents id doc f v) id
      ∙ ground (arith, nat_eq_iff id id)

  -- For a document of the table whose status may become DELETING, and whose file the file store deletes,
  -- the task returns, the table has no such document, and the graph is what the deletion leaves of it.
  pub delete_document_task-removes :
      (message : Error → Text) (id : ℕ) (w : World O) (doc : Document)
      → get_document_by_id w.documents id ≡ some doc
      → validate_status_transition doc.status deleting ≡ ok tt
      → delete_object (marked doc) ≡ ok tt
      → (out : World O) × (delete_document_task delete_object message id w ≡ (ok tt, out))
        × (get_document_by_id out.documents id ≡ none)
        × (out.graph ≡ delete_document id w.graph)
  unfolding delete_document_task set_status
  delete_document_task-removes message id w doc f v d = (
    delete_row delete_object id (half_done id doc w),
    rw (delete_document_task, update-deleting w.documents id doc f v, get-half_done id doc w f v, d)
        refl,
    get_document_by_id-filter id (half_done id doc w).documents,
    refl,
  )

  -- For a document of the table whose status may become DELETING, where the file store raises an error
  -- other than a refused transition, the task raises that error, and the document keeps the status
  -- DELETING, although its node and its chunks are gone from the graph.
  pub delete_document_task-fails :
      (message : Error → Text) (id : ℕ) (w : World O) (doc : Document) (error : Error)
      → get_document_by_id w.documents id ≡ some doc
      → validate_status_transition doc.status deleting ≡ ok tt
      → delete_object (marked doc) ≡ raise error
      → is_invalid_transition error ≡ false
      → (out : World O) × (delete_document_task delete_object message id w ≡ (raise error, out))
        × (get_document_by_id out.documents id ≡ some (marked doc))
        × (out.graph ≡ delete_document id w.graph)
  unfolding delete_document_task set_status
  delete_document_task-fails message id w doc error f v d real =
      let here = get-half_done id doc w f v in
      (
        half_done id doc w,
        rw
            (
              delete_document_task,
              update-deleting w.documents id doc f v,
              here,
              d,
              real,
              update-failed (half_done id doc w).documents id (marked doc) (message error) here
                  refl,
            )
            refl,
        here,
        refl,
      )
