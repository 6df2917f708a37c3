-- ===== src/App/Api.antt =====
-- The server behind the endpoints of examples/fastapi_app/main.py: the tables with the constraints that
-- PostgreSQL checks at a commit, the objects of the bucket, and the messages in the broker.
pub mod Documents
pub mod Query
pub mod Stalled
pub mod Refused
pub mod Accepted
pub mod Handlers
pub mod Consistent
pub mod Life
pub mod Steps
pub mod Linkless
pub mod Inserts
pub mod Tables
pub mod Ontologies
use jenezis.Prelude.{
  ℕ, zero, suc, Bool, true, false, not, ◌&&◌, ◌||◌, List, [], ◌∷◌, ◌++◌, map, elem, filter, head?,
  Option, none, some, Text, Text_eq, ℕ_eq, codes, ◌==◌, Json, Result, ok, raise, integrity_error,
  if◌then◌else◌,
}
use jenezis.Storage.Status.{pending}
use jenezis.Storage.Metadata.{Document, ApiKey}
use jenezis.App.Tasks.{World}
use jenezis.App.Tasks.Worker.{Signature}

-- A row of `domain_configs`, which the endpoints call an ontology.
pub record Ontology : Type 0 where
  pub id : ℕ
  pub name : Text
  pub schema_json : Json

-- `world` has the tables of the tasks and the graph; `objects` are those of the bucket by key. A
-- message of the broker is a chain of signatures, of one for `delay`. The sequences hand out the
-- identifiers of the tables.
pub record Server (B O : Type 0) : Type 0 where
  pub world : World O
  pub ontologies : List Ontology
  pub api_keys : List ApiKey
  pub objects : List (Text × List B)
  pub broker : List (List Signature)
  pub document_ids : ℕ
  pub ontology_ids : ℕ
  pub api_key_ids : ℕ

-- `db.get(Ontology, ontology_id)`
unfoldable pub find_ontology : ℕ → List Ontology → Option Ontology
find_ontology ontology_id ontologies = head? (filter (λ o. o.id == ontology_id) ontologies)

-- What the constructor of `Document` is given.
pub record NewDocument : Type 0 where
  pub filename : Text
  pub document_hash : Text
  pub s3_path : Text
  pub domain_config_id : Option ℕ

-- `domain_config_id` is not nullable and a foreign key.
abbrev pub refers : Option ℕ → List Ontology → Bool
refers none ontologies = false
refers (some id) ontologies = elem id (map (λ o. o.id) ontologies)

-- The row that the database stores, under the identifier of the sequence.
abbrev pub new_row : ℕ → NewDocument → Document
new_row id new = record {
  id = id;
  filename = new.filename;
  document_hash = new.document_hash;
  s3_path = new.s3_path;
  status = pending;
  error_log = none;
  domain_config_id = new.domain_config_id;
}

abbrev pub hashes : List Document → List Text
hashes = map (λ d. d.document_hash)

module _ {B O : Type 0} where
  -- `db.add(new_doc); await db.commit()`: `document_hash` is unique. A refused INSERT uses up its
  -- identifier too.
  unfoldable pub insert_document : NewDocument → Server B O → Result ℕ × Server B O
  insert_document new s =
      let drawn = record s { document_ids = suc s.document_ids } in
      if refers new.domain_config_id s.ontologies
        && not (elem new.document_hash (hashes s.world.documents))
      then (
        ok s.document_ids,
        record drawn {
          world = record s.world {
            documents = s.world.documents ++ new_row s.document_ids new ∷ [];
          };
        },
      )
      else (raise integrity_error, drawn)

  -- The broker takes a message.
  unfoldable pub send : List Signature → Server B O → Server B O
  send message s = record s { broker = s.broker ++ message ∷ [] }
