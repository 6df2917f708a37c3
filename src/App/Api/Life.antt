-- ===== src/App/Api/Life.antt =====
-- The life of an identifier of a document, as the table of the statuses in
-- jenezis/storage/metadata_store.py documents it. It forgets all of the server but the status.
pub mod Rows
pub mod Refines
use jenezis.Prelude.{ℕ, ltb, List, In, Option, none, some, if◌then◌else◌}
use jenezis.Storage.Status.{DocumentStatus, pending, deleting, valid_status_transitions}
use jenezis.Storage.Metadata.{Document, get_document_by_id}
use jenezis.App.Api.{Server}

-- No row has had the identifier; the row has a status; the identifier is used up.
pub data Phase : Type 0 where
  unborn : Phase
  live : DocumentStatus → Phase
  gone : Phase

-- What may follow a phase: an insert, accepted or refused, a line of the table, or the deletion of a
-- row that is DELETING.
pub data Life (p : Phase) : Phase → Type 0 where
  start : Life p p
  accepted : Life p unborn → Life p (live pending)
  refused : Life p unborn → Life p gone
  changed :
      {a b : DocumentStatus} → Life p (live a) → In b (valid_status_transitions a) → Life p (live b)
  deleted : Life p (live deleting) → Life p gone

abbrev pub status_phase : Option Document → Phase
status_phase none = gone
status_phase (some d) = live d.status

-- The phase of the identifier in a table whose sequence stands at `next`.
abbrev pub phase_in : ℕ → List Document → ℕ → Phase
phase_in next db i = if ltb i next then status_phase (get_document_by_id db i) else unborn

abbrev pub phase : {B O : Type 0} → ℕ → Server B O → Phase
phase i s = phase_in s.document_ids s.world.documents i
