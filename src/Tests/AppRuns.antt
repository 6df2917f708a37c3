-- ===== src/Tests/AppRuns.antt =====
-- The tasks and the upload of the application on concrete inputs.
use jenezis.Prelude.{
  ℕ, ℕ_eq, Text_eq, ◌≤◌, ◌<◌, ◌≡◌, ◌≢◌, ◌⊎◌, refl, true, false, [], ◌∷◌, map, All, length, none,
  some, codes, text_eq, Result, ok, raise, runtime_error, http_error, is_identifier_char, is_letter,
  is_digit, Json, str, arr, nil, cons, obj, end, field,
}
use jenezis.Tests.Samples.{ascii, report, graph}
use jenezis.Storage.Status.{completed, validate_status_transition}
use jenezis.Storage.Metadata.{
  Document, get_document_by_id, update_document_status, check_update, set_status, write_document,
}
use jenezis.Storage.Graph.Engine.{delete_document}
use jenezis.Ingestion.Chunker.{chunk}
use jenezis.Ingestion.Extractor.{is_falsy}
use jenezis.App.Tasks.{World}
use jenezis.App.Tasks.Process.{Setup, process_document}
use jenezis.App.Tasks.Process.Ends.{IsCompleted}
use jenezis.App.Tasks.Process.Outcome.{process_document-IsCompleted}
use jenezis.App.Tasks.Delete.{delete_document_task}
use jenezis.App.Tasks.Delete.Outcome.{
  marked, delete_document_task-removes, delete_document_task-fails,
}
use jenezis.App.Tasks.Enrich.{
  EnrichmentItem, pending, find_item, Store, Services, enrich_unresolved_entity,
}
use jenezis.App.Tasks.Enrich.Outcome.{Ends, Ends-enrich_unresolved_entity}
use jenezis.App.Filename.{sanitize_filename, is_safe}
use jenezis.App.Filename.Safety.{Documented, sanitize_filename-is_safe}
use jenezis.App.Upload.{validate_upload_size}
use jenezis.App.Upload.Limit.{DeclaresTooMuch, body, validate_upload_size_iff}

abbrev pub world : World ℕ
world = record { documents = report ∷ []; queue = []; graph = graph }

abbrev config : Json
config = obj (field (codes "entity_types") (arr (cons (str (codes "Person")) nil)) end)

-- A file without text.
abbrev pub setup : Setup ℕ ℕ ℕ
setup = record {
  unicode = ascii;
  encoder = record { encode = λ t. t; decode = λ t. t; uuid4 = λ n. n ∷ [] };
  chunker = record { chunk_size = 4; chunk_overlap = 1 };
  batch_size = 2;
  is_invalid = λ n. false;
  config_of = λ d. some config;
  parse = λ d. ok [];
  complete = λ s t. raise runtime_error;
  services = record {
    ilike = text_eq;
    create = λ ts. ok (map length ts);
    is_missing = λ n. false;
    nearest = λ n. none;
    is_confident = λ n. false;
    zero_similarity = 0;
  };
  aliases = [];
}

abbrev processed : World ℕ
processed = record world {
  documents = record report { status = completed; error_log = some (codes "Doc was empty.") } ∷ [];
}

process_document-IsCompleted_example : IsCompleted 1 processed
unfolding process_document update_document_status get_document_by_id check_update set_status
    write_document validate_status_transition chunk is_falsy
process_document-IsCompleted_example = process_document-IsCompleted setup 1 world processed refl

abbrev deletes : Document → Result (Unit {0})
deletes d = ok tt

abbrev refuses : Document → Result (Unit {0})
refuses d = raise runtime_error

delete_document_task-removes_example :
    (out : World ℕ) × (delete_document_task deletes (λ error. codes "failed") 1 world
      ≡ (ok tt, out))
    × (get_document_by_id out.documents 1 ≡ none)
    × (out.graph ≡ delete_document 1 graph)
unfolding get_document_by_id validate_status_transition
delete_document_task-removes_example =
    delete_document_task-removes deletes (λ error. codes "failed") 1 world report refl refl refl

delete_document_task-fails_example :
    (out : World ℕ) × (delete_document_task refuses (λ error. codes "failed") 1 world
      ≡ (raise runtime_error, out))
    × (get_document_by_id out.documents 1 ≡ some (marked report))
    × (out.graph ≡ delete_document 1 graph)
unfolding get_document_by_id validate_status_transition
delete_document_task-fails_example =
    delete_document_task-fails refuses (λ error. codes "failed") 1 world report runtime_error refl
      refl refl refl

abbrev rome_item : EnrichmentItem
rome_item = record {
  id = 7;
  name = codes "Roma";
  entity_type = codes "City";
  context_chunk = codes "Ada in Roma";
  status = pending;
}

abbrev pub tables : Store ℕ
tables = record { queue = rome_item ∷ []; nodes = []; aliases = [] }

-- The model answers Rome, and an embedding is the length of the text.
abbrev pub learner : Services ℕ
learner = record {
  ask = λ i. ok (codes "Rome");
  create = λ texts. ok (map (λ t. length t) texts);
  others = [];
  fresh = 1;
}

Ends-enrich_unresolved_entity_example :
    Ends 7 rome_item tables (enrich_unresolved_entity learner 7 tables)
unfolding find_item
Ends-enrich_unresolved_entity_example =
    Ends-enrich_unresolved_entity learner 7 tables rome_item refl refl

ascii-Documented : Documented ascii
unfolding is_identifier_char is_letter is_digit
ascii-Documented = record { underscore = refl; slash = refl; backslash = refl; null = refl }

sanitize_filename-is_safe_example :
    All (λ c. (is_safe ascii c ≡ true) × (c ≢ b'/') × (c ≢ 92) × (c ≢ 0)) (codes "passwd")
unfolding sanitize_filename is_letter text_eq is_identifier_char
sanitize_filename-is_safe_example =
    sanitize_filename-is_safe ascii (λ t. t) ascii-Documented (codes "../../etc/passwd")
      (codes "passwd") refl

-- A header that is no number, and two reads.
validate_upload_size_iff_example :
    (¬ DeclaresTooMuch (λ t. some (false, 52428801)) (some (codes "52428801")))
      × (length (body (codes "ab" ∷ codes "c" ∷ [])) ≤ 52428800)
      × (validate_upload_size
            (λ t. some (false, 52428801))
            (some (codes "52428801"))
            (codes "ab" ∷ codes "c" ∷ [])
          ≡ ok (body (codes "ab" ∷ codes "c" ∷ [])))
    ⊎ (DeclaresTooMuch (λ t. some (false, 52428801)) (some (codes "52428801"))
        ⊎ (52428800 < length (body (codes "ab" ∷ codes "c" ∷ []))))
      × (validate_upload_size
            (λ t. some (false, 52428801))
            (some (codes "52428801"))
            (codes "ab" ∷ codes "c" ∷ [])
          ≡ raise (http_error 413))
validate_upload_size_iff_example =
    validate_upload_size_iff (λ t. some (false, 52428801)) (some (codes "52428801"))
      (codes "ab" ∷ codes "c" ∷ [])
