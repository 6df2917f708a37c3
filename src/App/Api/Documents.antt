-- ===== src/App/Api/Documents.antt =====
-- The endpoints for documents of examples/fastapi_app/main.py. The key check of the dependency is
-- Core.Security.
use jenezis.Prelude.{
  ◌>=>◌, pure, ℕ, Bool, List, [], ◌∷◌, ◌++◌, insert, nat_eq, Option, none, some, Text, Text_eq,
  Result, ok, raise, ◌>>=◌, ◌>>◌, runtime_error, http_error, if◌then◌else◌,
}
use jenezis.Core.Unicode.{Unicode}
use jenezis.Storage.Status.{DocumentStatus}
use jenezis.Storage.Metadata.{get_document_by_hash, get_document_by_id}
use jenezis.App.Filename.{sanitize_filename}
use jenezis.App.Upload.{ParseInt, validate_upload_size}
use jenezis.App.Tasks.Worker.{Signature, signature}
use jenezis.App.Tasks.Worker
use jenezis.App.Api.{Server, NewDocument, find_ontology, insert_document, send}

-- What the handlers use of other code: the tables of Unicode, urllib's `unquote`, `int`, SHA-256 in
-- hexadecimal, the file store and the broker, which may refuse an object or a message, and the SELECT
-- of `db.refresh`, which may fail. `connected` says that the S3 client was made.
pub record Web (B : Type 0) : Type 0 where
  pub unicode : Unicode
  pub unquote : Text → Text
  pub int : ParseInt
  pub digest : List B → Text
  pub connected : Bool
  pub accept_object : Text → List B → Result (Unit {0})
  pub refresh : ℕ → Result (Unit {0})
  pub accept_message : List Signature → Result (Unit {0})
  pub bucket : Text

-- The request with its file: the header `content-length`, the reads of the body, and the name.
pub record Upload (B : Type 0) : Type 0 where
  pub content_length : Option Text
  pub reads : List (List B)
  pub filename : Text

-- `f"{file_hash}_{safe_filename}"`
abbrev pub s3_key : Text → Text → Text
s3_key file_hash safe_filename = file_hash ++ b'_' ∷ safe_filename

module _ {B O : Type 0} where
  -- `if ontology_id and not await db.get(Ontology, ontology_id)`
  unfoldable pub check_ontology : Option ℕ → Server B O → Result (Unit {0})
  check_ontology none s = ok tt
  check_ontology (some ontology_id) s =
      if nat_eq ontology_id 0 then ok tt else elim (find_ontology ontology_id s.ontologies) [
        | none ↦ raise (http_error 404)
        | some o ↦ ok tt
      ]

  -- `if not await db.get(Document, document_id)`
  abbrev pub check_document : ℕ → Server B O → Result (Unit {0})
  check_document document_id s = elim (get_document_by_id s.world.documents document_id) [
    | none ↦ raise (http_error 404)
    | some doc ↦ ok tt
  ]

  -- `if await get_document_by_hash(db, file_hash)`
  unfoldable pub check_duplicate : Text → Server B O → Result (Unit {0})
  check_duplicate file_hash s = elim (get_document_by_hash s.world.documents file_hash) [
    | none ↦ ok tt
    | some doc ↦ raise (http_error 409)
  ]

module _ {B : Type 0} (web : Web B) where
  abbrev pub get_s3_client : Result (Unit {0})
  get_s3_client = if web.connected then ok tt else raise runtime_error

  -- `f"{settings.S3_BUCKET_NAME}/{s3_key}"`
  abbrev pub object_path : Text → Text
  object_path key = web.bucket ++ b'/' ∷ key

  -- The contents and the name under which they are kept.
  unfoldable pub receive : Upload B → Result (List B × Text)
  receive upload = do
    get_s3_client
    contents ← validate_upload_size web.int upload.content_length upload.reads
    safe_filename ← sanitize_filename web.unicode web.unquote upload.filename
    ok (contents, safe_filename)

  abbrev pub new_document : Text → Text → Option ℕ → NewDocument
  new_document file_hash safe_filename ontology_id = record {
    filename = safe_filename;
    document_hash = file_hash;
    s3_path = object_path (s3_key file_hash safe_filename);
    domain_config_id = ontology_id;
  }

module _ {B O : Type 0} (web : Web B) where
  unfoldable pub put_object : Text → List B → Server B O → Result (Unit {0}) × Server B O
  put_object key contents s = elim (web.accept_object key contents) [
    | ok _ ↦ (ok tt, record s { objects = insert key contents s.objects })
    | raise error ↦ (raise error, s)
  ]

  -- `db.add(new_doc); await db.commit(); await db.refresh(new_doc)`: a refresh that raises leaves the
  -- row, as it is committed.
  unfoldable pub commit_document : NewDocument → Server B O → Result ℕ × Server B O
  unfolding insert_document
  commit_document new s = insert_document new s >=> λ job_id s'.
      pure (web.refresh job_id) s' >=> λ _ s''. (ok job_id, s'')

  -- `delay` of a task or a chain, which raises where the broker refuses the message.
  unfoldable pub delay : List Signature → Server B O → Result (Unit {0}) × Server B O
  unfolding send
  delay message s = pure (web.accept_message message) s >=> λ _ s'. (ok tt, send message s')

  -- The steps of `upload_document` in its session: the object, the row, the message.
  abbrev pub store : Option ℕ → List B → Text → Server B O → Result ℕ × Server B O
  store ontology_id contents safe_filename s =
      let file_hash = web.digest contents in
      put_object (s3_key file_hash safe_filename) contents s
      >=> (λ _. commit_document (new_document web file_hash safe_filename ontology_id))
      >=> λ job_id s'.
          delay (signature Worker.process_document job_id ∷ []) s' >=> λ _ s''. (ok job_id, s'')

  -- The `job_id` of the answer.
  unfoldable pub upload_document : Upload B → Option ℕ → Server B O → Result ℕ × Server B O
  unfolding receive check_duplicate check_ontology put_object commit_document delay
  upload_document upload ontology_id s =
      pure (receive web upload) s >=> λ (contents, safe_filename) s'.
      pure (check_duplicate (web.digest contents) s' >> check_ontology ontology_id s') s' >=> λ _.
      store ontology_id contents safe_filename

  -- The second session of `update_document`: the row, the object, the chain of tasks.
  abbrev pub replace : ℕ → Option ℕ → List B → Text → Server B O → Result ℕ × Server B O
  replace document_id ontology_id contents safe_filename s =
      let file_hash = web.digest contents in
      commit_document (new_document web file_hash safe_filename ontology_id) s >=> λ job_id s'.
      put_object (s3_key file_hash safe_filename) contents s'
      >=> (λ _. delay (
          signature Worker.delete_document document_id
          ∷ signature Worker.process_document job_id
          ∷ []))
      >=> λ _ s''. (ok job_id, s'')

  -- The `new_job_id` of the answer.
  unfoldable pub update_document : ℕ → Upload B → Option ℕ → Server B O → Result ℕ × Server B O
  unfolding receive check_ontology put_object commit_document delay
  update_document document_id upload ontology_id s =
      pure (check_document document_id s >> check_ontology ontology_id s) s
      >=> (λ _. pure (receive web upload))
      >=> λ (contents, safe_filename). replace document_id ontology_id contents safe_filename

  -- The `delete` endpoint answers before the task runs.
  unfoldable pub delete_document : ℕ → Server B O → Result (Unit {0}) × Server B O
  unfolding delay
  delete_document document_id s = pure (check_document document_id s) s >=> λ _.
      delay (signature Worker.delete_document document_id ∷ [])

-- The answer of the status endpoint; timestamps are left out.
pub record JobStatus : Type 0 where
  pub job_id : ℕ
  pub filename : Text
  pub status : DocumentStatus
  pub error : Option Text
  pub domain_config_id : Option ℕ

unfoldable pub get_ingestion_status : {B O : Type 0} → ℕ → Server B O → Result JobStatus
get_ingestion_status job_id s = elim (get_document_by_id s.world.documents job_id) [
  | none ↦ raise (http_error 404)
  | some doc ↦ ok (record {
    job_id = doc.id;
    filename = doc.filename;
    status = doc.status;
    error = doc.error_log;
    domain_config_id = doc.domain_config_id;
  })
]
