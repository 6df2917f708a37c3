-- ===== src/App/Tasks/Delete.antt =====
-- `delete_document_task` of examples/fastapi_app/tasks.py. The deletion in the file store is a parameter.
pub mod Outcome
use jenezis.Prelude.{
  ◌>=>◌, pure, ℕ, Bool, true, false, not, List, filter, Option, none, some, Text, ℕ_eq, ◌==◌,
  Result, ok, raise, Error, invalid_transition, Eq, if◌then◌else◌,
}
use jenezis.Storage.Status.{failed, deleting}
use jenezis.Storage.Metadata.{Document, get_document_by_id}
use jenezis.Storage.Graph.Engine.{delete_document}
use jenezis.App.Tasks.{World, set_document_status}

-- `except InvalidStatusTransitionError`
abbrev pub is_invalid_transition : Error → Bool
is_invalid_transition invalid_transition = true
is_invalid_transition _ = false

module _ {O : Type 0} ⦃e : Eq O⦄ (delete_object : Document → Result (Unit {0})) where
  abbrev pub delete_row : ℕ → World O → World O
  delete_row document_id w = record w {
    documents = filter (λ d. not (d.id == document_id)) w.documents;
  }

  -- The second session: the file, then the row.
  abbrev pub remove : ℕ → Option Document → World O → Result (Unit {0}) × World O
  remove document_id none w = (ok tt, w)
  remove document_id (some doc) w =
      pure (delete_object doc) w >=> λ _ w'. (ok tt, delete_row document_id w')

  abbrev pub delete_graph : ℕ → World O → World O
  delete_graph document_id w = record w { graph = delete_document document_id w.graph }

  abbrev pub run_delete : ℕ → World O → Result (Unit {0}) × World O
  run_delete document_id w = set_document_status document_id deleting none w >=> λ _ w'.
      remove document_id (get_document_by_id w'.documents document_id) (delete_graph document_id w')

  -- The `except` clauses: a failure is written down where the transition is allowed, and raised again.
  abbrev pub on_failure :
      ℕ → (Error → Text) → Result (Unit {0}) × World O → Result (Unit {0}) × World O
  on_failure document_id message (ok u, w) = (ok u, w)
  on_failure document_id message (raise error, w) =
      if is_invalid_transition error
      then (raise error, w)
      else (raise error, (set_document_status document_id failed (some (message error)) w).1)

  unfoldable pub delete_document_task : (Error → Text) → ℕ → World O → Result (Unit {0}) × World O
  delete_document_task message document_id w =
      on_failure document_id message (run_delete document_id w)
