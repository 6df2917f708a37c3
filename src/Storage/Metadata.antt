-- ===== src/Storage/Metadata.antt =====
-- The tables of jenezis/storage/metadata_store.py and the functions on documents and API keys.
-- A table is the list of its rows in the order in which the database returns them.
pub mod Updates
use jenezis.Prelude.{
  ℕ, Bool, true, false, ◌&&◌, List, [], ◌∷◌, map, Option, none, some, filter, head?, is_empty, Text,
  Result, ok, raise, ◌>>=◌, ◌>>◌, Error, value_error, ◌==◌, ℕ_eq, Text_eq, if◌then◌else◌,
}
use jenezis.Storage.Status.{
  DocumentStatus, pending, failed, document_status_eq, validate_status_transition,
}

pub record Document : Type 0 where
  pub id : ℕ
  pub filename : Text
  pub document_hash : Text
  pub s3_path : Text
  pub status : DocumentStatus
  pub error_log : Option Text
  pub domain_config_id : Option ℕ

pub record ApiKey : Type 0 where
  pub id : ℕ
  pub key_hash : Text
  pub is_active : Bool

unfoldable pub get_api_key_by_hash : List ApiKey → Text → Option ApiKey
get_api_key_by_hash db key_hash = head? (filter (λ k. k.key_hash == key_hash && k.is_active) db)

unfoldable pub get_document_by_hash : List Document → Text → Option Document
get_document_by_hash db doc_hash = head? (filter (λ d. d.document_hash == doc_hash) db)

unfoldable pub get_document_by_id : List Document → ℕ → Option Document
get_document_by_id db doc_id = head? (filter (λ d. d.id == doc_id) db)

-- `not error_message`.
abbrev pub is_missing : Option Text → Bool
is_missing none = true
is_missing (some t) = is_empty t

-- The UPDATE that a commit sends for a changed row.
unfoldable pub write_document : Document → List Document → List Document
write_document doc db = map (λ d. if d.id == doc.id then doc else d) db

-- The two checks before the assignment.
unfoldable pub check_update : DocumentStatus → DocumentStatus → Option Text → Result (Unit {0})
check_update current status error_message = do
  validate_status_transition current status
  if status == failed && is_missing error_message then raise value_error else ok tt

unfoldable pub set_status : Document → DocumentStatus → Option Text → Document
set_status doc status error_message = record doc { status = status; error_log = error_message }

unfoldable pub update_document_status :
    List Document → ℕ → DocumentStatus → Option Text → Result (Option Document × List Document)
unfolding check_update set_status
update_document_status db doc_id status error_message = elim (get_document_by_id db doc_id) [
  | none ↦ ok (none, db)
  | some doc ↦ do
    check_update doc.status status error_message
    let doc' = set_status doc status error_message
    ok (some doc', write_document doc' db)
]
