-- ===== src/App/Tasks/Worker.antt =====
-- How a message of the broker runs: the calls of the two tasks that the endpoints send, after the
-- `shared_task` declarations of examples/fastapi_app/tasks.py. How a chain hands a result on is
-- Celery's.
use jenezis.Prelude.{
  ◌>=>◌, ℕ, List, [], ◌∷◌, Option, none, some, lookup, Text, Text_eq, codes, Eq, Result, ok, raise,
  type_error, value_error, Error,
}
use jenezis.Storage.Metadata.{Document}
use jenezis.App.Tasks.{World}
use jenezis.App.Tasks.Process.{Setup}
use jenezis.App.Tasks.Retries.{process_task}
use jenezis.App.Tasks.Delete.{delete_document_task}

pub data TaskName : Type 0 where
  process_document delete_document : TaskName

-- A signature of Celery. An argument is an identifier, or the `None` that a task returns.
pub record Signature : Type 0 where
  pub task : TaskName
  pub args : List (Option ℕ)
  pub kwargs : List (Text × ℕ)

-- `task.s(document_id=...)`
abbrev pub signature : TaskName → ℕ → Signature
signature task document_id = record {
  task = task;
  args = [];
  kwargs = (codes "document_id", document_id) ∷ [];
}

-- How Python binds a call to the one parameter `document_id`.
abbrev bind : List (Option ℕ) → List (Text × ℕ) → Option ℕ → Result (Option ℕ)
bind [] (_ ∷ []) (some id) = ok (some id)
bind (arg ∷ []) [] _ = ok arg
bind _ _ _ = raise type_error

unfoldable pub document_id_of : Signature → Result (Option ℕ)
document_id_of call = bind call.args call.kwargs (lookup (codes "document_id") call.kwargs)

-- What the tasks run with.
pub record Worker (T O S : Type 0) : Type 0 where
  pub setups : ℕ → Setup T O S
  pub delete_object : Document → Result (Unit {0})
  pub message : Error → Text

module _ {T O S : Type 0} ⦃e : Eq O⦄ (worker : Worker T O S) where
  -- The body of a task. No row has the identifier `None`.
  abbrev run_body : TaskName → Option ℕ → World O → Result (Unit {0}) × World O
  run_body process_document (some id) w = process_task worker.setups id w
  run_body process_document none w = (raise value_error, w)
  run_body delete_document (some id) w =
      delete_document_task worker.delete_object worker.message id w
  run_body delete_document none w = (ok tt, w)

  abbrev bound : TaskName → Result (Option ℕ) → World O → Result (Unit {0}) × World O
  bound task (ok id) w = run_body task id w
  bound task (raise error) w = (raise error, w)

  unfoldable pub run_call : Signature → World O → Result (Unit {0}) × World O
  unfolding document_id_of
  run_call call w = bound call.task (document_id_of call) w

  -- The calls behind the first: `hand_on` puts the result `None` of the call before among the arguments.
  -- A task that raises ends its chain.
  unfoldable pub run_rest :
      (Signature → Signature) → List Signature → World O → Result (Unit {0}) × World O
  unfolding run_call
  run_rest hand_on [] w = (ok tt, w)
  run_rest hand_on (call ∷ calls) w = run_call (hand_on call) w >=> λ _. run_rest hand_on calls

  unfoldable pub run_message :
      (Signature → Signature) → List Signature → World O → Result (Unit {0}) × World O
  unfolding run_call run_rest
  run_message hand_on [] w = (ok tt, w)
  run_message hand_on (call ∷ calls) w = run_call call w >=> λ _. run_rest hand_on calls
