-- ===== src/App/Tasks.antt =====
-- The tasks of examples/fastapi_app/tasks.py that ingest and delete a document, and that learn an
-- entity. A task of the first two returns what it raises together with the world that it leaves. The file store, the parser, the configuration of a
-- document and the services that the steps call are parameters.
pub mod Process
pub mod Retries
pub mod Paths
pub mod Worker
pub mod Keeps
pub mod Graphs
pub mod Sound
pub mod Garbage
pub mod Delete
pub mod Enrich
use jenezis.Prelude.{ℕ, List, Option, Text, Result, ok, raise}
use jenezis.Storage.Status.{DocumentStatus}
use jenezis.Storage.Metadata.{Document, update_document_status}
use jenezis.Storage.Graph.{Graph}

-- An item of the enrichment queue; a new one is PENDING.
pub record QueueItem : Type 0 where
  pub name : Text
  pub entity_type : Text
  pub context_chunk : Text

-- The tables that the tasks write, and the graph.
pub record World (O : Type 0) : Type 0 where
  pub documents : List Document
  pub queue : List QueueItem
  pub graph : Graph O

abbrev pub written :
    {O : Type 0} → Result (Option Document × List Document) → World O → Result (Unit {0}) × World O
written (ok (_, documents)) w = (ok tt, record w { documents = documents })
written (raise error) w = (raise error, w)

-- `update_document_status`, whose commit is the write.
abbrev pub set_document_status :
    {O : Type 0} → ℕ → DocumentStatus → Option Text → World O → Result (Unit {0}) × World O
set_document_status document_id status message w =
    written (update_document_status w.documents document_id status message) w
