-- ===== src/App/Tasks/Keeps.antt =====
-- What the changes of a status and the deletion of a row keep, the tasks keep.
use jenezis.Prelude.{
  ◌>=>◌, pure, ℕ, zero, suc, ◌≡◌, refl, sym, subst, not, Bool-cases, inl, inr, Option-cases, List,
  filter, Option, none, some, Text, Text_eq, invalid_transition, Eq, ℕ_eq, ◌==◌, nat_eq, Result, ok,
  raise, Error, Result-cases, lookup, codes,
}
use jenezis.Storage.Status.{DocumentStatus, processing, completed, failed, deleting}
use jenezis.Storage.Metadata.{Document, get_document_by_id, update_document_status}
use jenezis.Storage.Metadata.Updates.{update-status}
use jenezis.App.Tasks.{World, written, set_document_status}
use jenezis.App.Tasks.Process.{Setup, process_document}
use jenezis.App.Tasks.Process.Ends.{Ends, Ends-of, Ends-cases, process_document-Ends}
use jenezis.App.Tasks.Retries.{retry, max_retries, process_task, swallow, handle_dead_letter}
use jenezis.App.Tasks.Retries.Stuck.{retry-returned, retry-raised}
use jenezis.App.Tasks.Delete.{
  delete_row, is_invalid_transition, remove, delete_graph, run_delete, on_failure,
  delete_document_task,
}

-- `P` survives what the tasks of the document `i` write to the table.
pub record Survives (P : List Document → Type 0) (i : ℕ) : Type 0 where
  pub update :
      (s : DocumentStatus) (message : Option Text) (db : List Document) {r : Option Document}
      {db' : List Document}
      → P db
      → update_document_status db i s message ≡ ok (r, db')
      → P db'
  pub delete :
      (db : List Document) (doc : Document)
      → get_document_by_id db i ≡ some doc
      → doc.status ≡ deleting
      → P db
      → P (filter (λ d. not (d.id == i)) db)

module _ {O : Type 0} (P : List Document → Type 0) (i : ℕ) (keep : Survives P i) where
  pub set_document_status-keeps :
      (s : DocumentStatus) (message : Option Text) (w : World O)
      → P w.documents
      → P (set_document_status i s message w).1.documents
  set_document_status-keeps s message w h = go (update_document_status w.documents i s message) refl
    where
      go :
          (m : Result (Option Document × List Document))
          → update_document_status w.documents i s message ≡ m
          → P (written m w).1.documents
      go (raise error) e = h
      go (ok (r, db)) e = keep.update s message w.documents h e

swallow-world : {O : Type 0} (m : Result (Unit {0}) × World O) → (swallow m).1 ≡ m.1
swallow-world (ok u, w) = refl
swallow-world (raise invalid_transition, w) = refl
swallow-world (raise _, w) = refl

pub handle_dead_letter-keeps :
    {O : Type 0} (P : List Document → Type 0)
    → ((i : ℕ) → Survives P i)
    → (kwargs : List (Text × ℕ)) (message : Text) (w : World O) → P w.documents
    → P (handle_dead_letter kwargs message w).1.documents
unfolding handle_dead_letter
handle_dead_letter-keeps P keep kwargs message w h =
    elim (Option-cases (lookup (codes "doc_id") kwargs)) [
      | inl absent ↦ rw (handle_dead_letter, absent) h
      | inr (i, found) ↦ elim (Bool-cases (nat_eq i 0)) [
        | inl zero' ↦ rw (handle_dead_letter, found, zero') h
        | inr other ↦
            rw (handle_dead_letter, found, other)
              (subst (λ w'. P w'.documents)
                (sym (swallow-world (set_document_status i failed (some message) w)))
                (set_document_status-keeps P i (keep i) failed (some message) w h))
      ]
    ]

retry-keeps :
    {O : Type 0} (P : List Document → Type 0) (attempt : ℕ → World O → Result (Unit {0}) × World O)
    → ((k : ℕ) (w : World O) → P w.documents → P (attempt k w).1.documents)
    → (left k : ℕ) (w : World O) → P w.documents
    → P (retry attempt left k w).1.documents
retry-keeps P attempt each zero k w h = unfold retry in each k w h
retry-keeps P attempt each (suc left) k w h = elim (Result-cases (attempt k w).0) [
  | inl (u, returned) ↦
      subst (λ m. P m.1.documents) (sym (retry-returned attempt left k w returned)) (each k w h)
  | inr (error, raised) ↦
      subst (λ m. P m.1.documents) (sym (retry-raised attempt left k w raised))
        (retry-keeps P attempt each left (suc k) (attempt k w).1 (each k w h))
]

module _ {T O S : Type 0} ⦃e : Eq O⦄ (P : List Document → Type 0) (i : ℕ)
    (keep : Survives P i) where
  pub process_document-keeps :
      (setup : Setup T O S) (w : World O)
      → P w.documents
      → P (process_document setup i w).1.documents
  unfolding process_document
  process_document-keeps setup w h = elim (Option-cases (get_document_by_id w.documents i)) [
    | inl missing ↦ rw (process_document, missing) h
    | inr (doc, f) ↦ Ends-cases P (process_document setup i w) (
        process_document-Ends setup i P P P (λ db k. k)
          (λ message w' k. cases completed message w' k) w doc f (cases processing none w h))
  ]
    where
      cases :
          (s : DocumentStatus) (message : Option Text) (w' : World O)
          → P w'.documents
          → Ends P P (set_document_status i s message w')
      cases s message w' k = Ends-of P _ (set_document_status-keeps P i keep s message w' k)

  pub process_task-keeps :
      (setups : ℕ → Setup T O S) (w : World O)
      → P w.documents
      → P (process_task setups i w).1.documents
  unfolding process_task
  process_task-keeps setups w h =
      retry-keeps P (λ k. process_document (setups k) i) (λ k. process_document-keeps (setups k))
        max_retries 0 w h

module _ {O : Type 0} ⦃e : Eq O⦄ (P : List Document → Type 0) (i : ℕ) (keep : Survives P i)
    (delete_object : Document → Result (Unit {0})) where
  remove-keeps :
      (found : Option Document) (w : World O)
      → get_document_by_id w.documents i ≡ found
      → ((doc : Document) → found ≡ some doc → doc.status ≡ deleting)
      → P w.documents
      → P (remove delete_object i found w).1.documents
  remove-keeps none w f marked h = h
  remove-keeps (some doc) w f marked h = go (delete_object doc)
    where
      go :
          (m : Result (Unit {0}))
          → P (pure m w >=> λ _ w'. (ok tt, delete_row delete_object i w')).1.documents
      go (ok _) = keep.delete w.documents doc f (marked doc refl) h
      go (raise error) = h

  run_delete-keeps : (w : World O) → P w.documents → P (run_delete delete_object i w).1.documents
  run_delete-keeps w h = go (update_document_status w.documents i deleting none) refl
    where
      go :
          (m : Result (Option Document × List Document))
          → update_document_status w.documents i deleting none ≡ m
          → P
              (written m w >=> λ _ w'.
                remove delete_object i
                  (get_document_by_id w'.documents i)
                  (delete_graph delete_object i w')).1.documents
      go (raise error) e = h
      go (ok (r, db)) e =
          remove-keeps (get_document_by_id db i)
            (delete_graph delete_object i (record w { documents = db })) refl
            (λ doc f. update-status w.documents i deleting none e doc f)
            (keep.update deleting none w.documents h e)

  pub delete_document_task-keeps :
      (message : Error → Text) (w : World O)
      → P w.documents
      → P (delete_document_task delete_object message i w).1.documents
  unfolding delete_document_task
  delete_document_task-keeps message w h = go (run_delete delete_object i w) (run_delete-keeps w h)
    where
      go :
          (m : Result (Unit {0}) × World O)
          → P m.1.documents
          → P (on_failure delete_object i message m).1.documents
      go (ok u, w') k = k
      go (raise error, w') k = elim (Bool-cases (is_invalid_transition error)) [
        | inl refused ↦ rw refused k
        | inr other ↦
            rw other (set_document_status-keeps P i keep failed (some (message error)) w' k)
      ]
