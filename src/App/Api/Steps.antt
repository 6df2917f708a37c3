-- ===== src/App/Api/Steps.antt =====
-- The steps of the running system, in any order and with any answers of the services around it, and
-- the constraints of the tables and the graph along them. The enrichment writes neither.
use jenezis.Prelude.{ℕ, sym, subst, List, Option, Text, Text_eq, ℕ_eq, Json, Eq, Result, Error}
use jenezis.Storage.Metadata.{Document}
use jenezis.App.Tasks.Process.{Setup, process_document}
use jenezis.App.Tasks.Retries.{handle_dead_letter}
use jenezis.App.Tasks.Delete.{delete_document_task}
use jenezis.App.Tasks.Keeps.{
  process_document-keeps, handle_dead_letter-keeps, delete_document_task-keeps,
}
use jenezis.App.Api.{Server}
use jenezis.App.Api.Documents.{Web, Upload, upload_document, update_document, delete_document}
use jenezis.App.Api.Ontologies.{create_ontology}
use jenezis.App.Api.Tables.{IsTable}
use jenezis.App.Api.Handlers.{
  upload_document-closed, update_document-closed, delete_document-closed, create_ontology-closed,
}
use jenezis.Storage.Graph.Invariant.{IsWellFormed}
use jenezis.App.Tasks.Garbage.{run_garbage_collection}
use jenezis.App.Tasks.Sound.{IsWellFormed-IsKept}
use jenezis.App.Tasks.Graphs.{
  process_document-HasGraph, handle_dead_letter-graph, run_garbage_collection-HasGraph,
  delete_document_task-HasGraph,
}
use jenezis.App.Api.Consistent.{
  Keeps, Keeps-IsClosed, IsConsistent, IsTable-Survives, Keeps-IsConsistent, world-IsConsistent,
  Keeps-self, insert_ontology-IsConsistent,
}

-- A handler runs, or an attempt of a task. Files may go from the bucket with the deletion.
pub data Step {B O : Type 0} ⦃e : Eq O⦄ (s : Server B O) : Server B O → Type 1 where
  upload :
      (web : Web B) (file : Upload B) (ontology_id : Option ℕ)
      → Step s (upload_document web file ontology_id s).1
  update :
      (web : Web B) (document_id : ℕ) (file : Upload B) (ontology_id : Option ℕ)
      → Step s (update_document web document_id file ontology_id s).1
  delete : (web : Web B) (document_id : ℕ) → Step s (delete_document web document_id s).1
  ontology :
      (refresh : ℕ → Result (Unit {0})) (name : Text) (schema_json : Json)
      → Step s (create_ontology refresh name schema_json s).1
  process :
      {T S : Type 0} (setup : Setup T O S) (document_id : ℕ)
      → Step s (record s { world = (process_document setup document_id s.world).1 })
  report :
      (kwargs : List (Text × ℕ)) (message : Text)
      → Step s (record s { world = (handle_dead_letter kwargs message s.world).1 })
  collect : Step s (record s { world = (run_garbage_collection s.world).1 })
  remove :
      (delete_object : Document → Result (Unit {0})) (message : Error → Text) (document_id : ℕ)
      (objects : List (Text × List B))
      → Step s (record s {
        world = (delete_document_task delete_object message document_id s.world).1;
        objects = objects;
      })

pub data Reach {B O : Type 0} ⦃e : Eq O⦄ (s : Server B O) : Server B O → Type 1 where
  here : Reach s s
  next : {t u : Server B O} → Reach s t → Step t u → Reach s u

module _ {B O : Type 0} ⦃e : Eq O⦄ where
  Step-IsConsistent : {s t : Server B O} → Step s t → IsConsistent s → IsConsistent t
  Step-IsConsistent {s} (upload web file ontology_id) c =
      Keeps-IsConsistent s _ c (
        upload_document-closed (Keeps s) (Keeps-IsClosed s) s web file ontology_id (Keeps-self s c))
  Step-IsConsistent {s} (update web document_id file ontology_id) c = Keeps-IsConsistent s _ c (
      update_document-closed (Keeps s) (Keeps-IsClosed s) s web document_id file ontology_id
        (Keeps-self s c))
  Step-IsConsistent {s} (delete web document_id) c =
      Keeps-IsConsistent s _ c
        (delete_document-closed (Keeps s) (Keeps-IsClosed s) s web document_id (Keeps-self s c))
  Step-IsConsistent {s} (ontology refresh name schema_json) c =
      create_ontology-closed IsConsistent refresh name schema_json s
        (insert_ontology-IsConsistent name schema_json s c)
  Step-IsConsistent {s} (process setup document_id) c =
      world-IsConsistent s (process_document setup document_id s.world).1 s.objects c
        (process_document-keeps (IsTable s.document_ids s.ontologies) document_id
          (IsTable-Survives document_id) setup s.world c.documents)
        (process_document-HasGraph IsWellFormed IsWellFormed-IsKept setup document_id s.world
          c.graph)
  Step-IsConsistent {s} (report kwargs message) c =
      world-IsConsistent s (handle_dead_letter kwargs message s.world).1 s.objects c
        (handle_dead_letter-keeps (IsTable s.document_ids s.ontologies) IsTable-Survives kwargs
          message s.world c.documents)
        (subst IsWellFormed (sym (handle_dead_letter-graph kwargs message s.world)) c.graph)
  Step-IsConsistent {s} collect c =
      world-IsConsistent s (run_garbage_collection s.world).1 s.objects c
        (unfold run_garbage_collection in c.documents)
        (run_garbage_collection-HasGraph IsWellFormed IsWellFormed-IsKept s.world c.graph)
  Step-IsConsistent {s} (remove delete_object message document_id objects) c =
      world-IsConsistent s (delete_document_task delete_object message document_id s.world).1
        objects c
        (delete_document_task-keeps (IsTable s.document_ids s.ontologies) document_id
          (IsTable-Survives document_id) delete_object message s.world c.documents)
        (delete_document_task-HasGraph IsWellFormed IsWellFormed-IsKept delete_object document_id
          message s.world c.graph)

  -- From a consistent server every sequence of requests, attempts of tasks, reports and collections, with
  -- any answers of the services, leads to a consistent server: identifiers, content hashes and names of
  -- ontologies are unique, identifiers were drawn from their sequences, each document refers to an
  -- ontology, and the graph has unique identifiers and relationships that end in its nodes.
  pub Reach-IsConsistent : {s t : Server B O} → IsConsistent s → Reach s t → IsConsistent t
  Reach-IsConsistent c here = c
  Reach-IsConsistent c (next r st) = Step-IsConsistent st (Reach-IsConsistent c r)
