-- ===== src/Tests/ApiRuns.antt =====
-- The endpoints, the start and the tasks behind the endpoints on concrete inputs.
use jenezis.Prelude.{
  field, arr, cons, str, nil, ℕ, ◌≡◌, ◌≢◌, refl, true, [], ◌∷◌, All, none, some, Text_eq, ℕ_eq,
  codes, text_eq, insert, ok, raise, integrity_error, runtime_error, end, obj, is_identifier_char,
  is_letter, arith,
}
use jenezis.Tests.Samples.{ascii, report, graph}
use jenezis.Storage.Metadata.{get_document_by_id, get_document_by_hash}
use jenezis.Tests.AppRuns.{setup}
use jenezis.App.Tasks.Process.{Setup, process_document}
use jenezis.Ingestion.Records.{Entity}
use jenezis.App.Tasks.Worker.{Signature, Worker}
use jenezis.App.Filename.{sanitize_filename}
use jenezis.App.Upload.{validate_upload_size}
use jenezis.App.Api.{Server, find_ontology, insert_document}
use jenezis.App.Api.Ontologies.{create_ontology}
use jenezis.App.Api.Documents.{
  Web, Upload, receive, check_ontology, put_object, upload_document, update_document, s3_key,
  commit_document, delay,
}
use jenezis.Storage.Graph.{empty_graph}
use jenezis.Storage.Graph.Invariant.{empty_graph-IsWellFormed}
use jenezis.App.Tasks.Garbage.{run_garbage_collection}
use jenezis.App.Api.Inserts.{HasTable}
use jenezis.App.Api.Consistent.{IsConsistent}
use jenezis.App.Api.Steps.{
  here, next, ontology, upload, process, collect, Reach, Reach-IsConsistent,
}
use jenezis.App.Api.Life.{Life, phase, gone}
use jenezis.App.Api.Life.Refines.{Reach-Life}
use jenezis.App.Api.Refused.{upload_document-orphan}
use jenezis.App.Api.Stalled.{IsStalled, update_document-IsStalled}

-- A server without rows, and its bytes are numbers.
abbrev pub fresh : Server ℕ ℕ
fresh = record {
  world = record { documents = []; queue = []; graph = empty_graph };
  ontologies = [];
  api_keys = [];
  objects = [];
  broker = [];
  document_ids = 1;
  ontology_ids = 1;
  api_key_ids = 1;
}

abbrev server : Server ℕ ℕ
server = record fresh {
  world = record { documents = report ∷ []; queue = []; graph = graph };
  ontologies = record { id = 1; name = codes "people"; schema_json = obj end } ∷ [];
  document_ids = 2;
  ontology_ids = 2;
}

abbrev web : Web ℕ
web = record {
  unicode = ascii;
  unquote = λ t. t;
  int = λ t. none;
  digest = λ contents. codes "cd34";
  connected = true;
  accept_object = λ key contents. ok tt;
  refresh = λ id. ok tt;
  accept_message = λ message. ok tt;
  bucket = codes "bucket";
}

abbrev cv : Upload ℕ
cv = record {
  content_length = none;
  reads = (1 ∷ 2 ∷ []) ∷ (3 ∷ []) ∷ [];
  filename = codes "cv.txt";
}

fresh-IsConsistent : IsConsistent fresh
fresh-IsConsistent = record {
  documents = record { drawn = tt; distinct_ids = tt; distinct_hashes = tt; referenced = tt };
  drawn = tt;
  distinct_ids = tt;
  distinct_names = tt;
  graph = empty_graph-IsWellFormed;
}

server-HasTable : HasTable server
server-HasTable = record {
  drawn = (omega arith, tt);
  distinct_ids = (refl, tt);
  distinct_hashes = (refl, tt);
  referenced = (refl, tt);
}

abbrev s1 : Server ℕ ℕ
s1 = (create_ontology (λ id. ok tt) (codes "people") (obj end) fresh).1

abbrev s2 : Server ℕ ℕ
s2 = (upload_document web cv (some 1) s1).1

abbrev ada : Entity
ada = record { id = codes "e1"; name = codes "Ada"; type = codes "Person" }

abbrev bob : Entity
bob = record { id = codes "e2"; name = codes "Bob"; type = codes "Person" }

-- A file whose text has two persons for the model, one knowing the other, and both in the aliases.
abbrev reading : Setup ℕ ℕ ℕ
reading = record setup {
  config_of = λ d. some (
      obj (
        field (codes "entity_types") (arr (cons (str (codes "Person")) nil))
          (field (codes "relation_types") (arr (cons (str (codes "KNOWS")) nil)) end)));
  parse = λ d. ok (codes "Ada");
  complete = λ schema text. ok (record {
    entities = ada ∷ bob ∷ [];
    relations = record { source = codes "e1"; target = codes "e2"; type = codes "KNOWS" } ∷ [];
  });
  aliases =
      record { alias = codes "Ada"; canonical_node_id = 7 }
      ∷ record { alias = codes "Bob"; canonical_node_id = 8 }
      ∷ [];
}

abbrev s3 : Server ℕ ℕ
s3 = record s2 { world = (process_document reading 1 s2.world).1 }

abbrev s4 : Server ℕ ℕ
s4 = record s3 { world = (run_garbage_collection s3.world).1 }

history : Reach fresh s4
history =
    next
      (next
        (next (next here (ontology (λ id. ok tt) (codes "people") (obj end)))
          (upload web cv (some 1)))
        (process reading 1))
      collect

Reach-IsConsistent_example : IsConsistent s4
Reach-IsConsistent_example = Reach-IsConsistent fresh-IsConsistent (
    next
      (next
        (next (next here (ontology (λ id. ok tt) (codes "people") (obj end)))
          (upload web cv (some 1)))
        (process reading 1))
      collect)

pub slashless : All (λ c. ◌≢◌ {A = ℕ} c b'/') (codes "bucket")
slashless =
    (omega arith, (omega arith, (omega arith, (omega arith, (omega arith, (omega arith, tt))))))

-- The broker is down.
abbrev brokerless : Web ℕ
brokerless = record web { accept_message = λ message. raise runtime_error }

upload_document-orphan_example : upload_document web cv none server ≡ (
  raise integrity_error,
  record server {
    objects = insert (s3_key (codes "cd34") (codes "cv.txt")) (1 ∷ 2 ∷ 3 ∷ []) [];
    document_ids = 3;
  },
)
unfolding receive validate_upload_size sanitize_filename is_letter text_eq is_identifier_char
    get_document_by_hash
upload_document-orphan_example =
    upload_document-orphan web cv server (1 ∷ 2 ∷ 3 ∷ []) (codes "cv.txt") refl refl refl

abbrev worker : Worker ℕ ℕ ℕ
worker = record {
  setups = λ k. setup;
  delete_object = λ d. ok tt;
  message = λ error. codes "failed";
}

abbrev hand_on : Signature → Signature
hand_on call = record call { args = none ∷ call.args }

update_document-IsStalled_example :
    IsStalled worker hand_on 1 server (update_document web 1 cv (some 1) server).1 2
unfolding update_document receive check_ontology find_ontology put_object commit_document
    insert_document delay validate_upload_size sanitize_filename is_letter text_eq
    is_identifier_char get_document_by_id
update_document-IsStalled_example =
    update_document-IsStalled worker hand_on (λ call. refl) web 1 cv (some 1) server server-HasTable
      (update_document web 1 cv (some 1) server).1 2 refl

-- The upload takes the identifier 1, and its ingestion completes.
Reach-Life_example : Life (phase 1 fresh) (phase 1 s4) × (phase 1 fresh ≡ gone → phase 1 s4 ≡ gone)
Reach-Life_example = Reach-Life fresh-IsConsistent history 1
