-- ===== src/App/Api/Refused.antt =====
-- What a refused upload leaves.
use jenezis.Prelude.{
  ◌⊎◌, ◌++◌, [], ◌∷◌, ℕ_eq, suc, ◌≡◌, refl, List, insert, none, Text, Text_eq, Result, ok, raise,
  integrity_error, Error,
}
use jenezis.Storage.Metadata.{Document, get_document_by_hash}
use jenezis.Storage.Status.{pending}
use jenezis.App.Tasks.Worker
use jenezis.App.Tasks.Worker.{signature}
use jenezis.App.Api.{Server, insert_document}
use jenezis.App.Api.Documents.{
  Web, Upload, receive, s3_key, put_object, check_duplicate, check_ontology, upload_document,
  commit_document,
}

module _ {B O : Type 0} where
  -- The tables of the tasks, the graph and the messages are as before.
  pub record IsUntouched (s s' : Server B O) : Type 0 where
    pub world : s'.world ≡ s.world
    pub broker : s'.broker ≡ s.broker

  -- What raised came after the commit: the row is there, under the next identifier and PENDING, no
  -- message is sent for it, and the error is that of the refresh or of the broker.
  pub record IsLeftBehind (web : Web B) (s s' : Server B O) (error : Error) : Type 0 where
    pub row : Document
    pub id : row.id ≡ s.document_ids
    pub status : row.status ≡ pending
    pub world : s'.world ≡ record s.world { documents = s.world.documents ++ row ∷ [] }
    pub broker : s'.broker ≡ s.broker
    pub cause :
        (web.refresh row.id ≡ raise error)
        ⊎ (web.accept_message (signature Worker.process_document row.id ∷ []) ≡ raise error)

  -- Where a step raises, `Q` holds of the error and the server that it leaves.
  abbrev RaiseSplit : (Error → Server B O → Type 0) → {A : Type 0} → Result A × Server B O → Type 0
  RaiseSplit Q (ok a, s') = Unit
  RaiseSplit Q (raise error, s') = Q error s'

  record Raises (Q : Error → Server B O → Type 0) {A : Type 0} (m : Result A × Server B O)
      : Type 0 where
    split : RaiseSplit Q m

  module _ (web : Web B) (s : Server B O) where
    abbrev IsRefused : Error → Server B O → Type 0
    IsRefused error s' = IsUntouched s s' ⊎ IsLeftBehind web s s' error

  module _ (web : Web B) (file : Upload B) (s : Server B O) where
    -- An upload without an ontology is refused by the database behind all of the checks: a file that they
    -- let through stays in the bucket, and no row and no message is written.
    pub upload_document-orphan :
        (contents : List B) (name : Text)
        → receive web file ≡ ok (contents, name)
        → get_document_by_hash s.world.documents (web.digest contents) ≡ none
        → web.accept_object (s3_key (web.digest contents) name) contents ≡ ok tt
        → upload_document web file none s ≡ (
          raise integrity_error,
          record s {
            objects = insert (s3_key (web.digest contents) name) contents s.objects;
            document_ids = suc s.document_ids;
          },
        )
    unfolding upload_document insert_document commit_document check_ontology
    upload_document-orphan contents name received new put =
        rw (upload_document, received, check_duplicate, new, put_object, put) refl
