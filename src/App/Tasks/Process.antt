-- ===== src/App/Tasks/Process.antt =====
-- `process_document` of examples/fastapi_app/tasks.py: one attempt of the pipeline, which the task
-- queue retries.
pub mod Ends
pub mod Outcome
pub mod Unlinked
use jenezis.Prelude.{
  ◌>=>◌, pure, ℕ, zero, suc, Bool, true, false, not, ◌&&◌, List, [], ◌∷◌, ◌++◌, map, filter,
  is_empty, contains, head?, Option, none, some, lookup, Text, Text_eq, ℕ_eq, codes, ◌==◌, Json,
  null, bool, number, str, arr, obj, Fields, end, field, texts, Eq, Result, ok, raise, ◌>>=◌,
  invalid_transition, value_error, runtime_error, if◌then◌else◌,
}
use jenezis.Core.Unicode.{Unicode}
use jenezis.Core.Prompt.Schema.{Sanitized}
use jenezis.Storage.Status.{processing, completed, failed}
use jenezis.Storage.Metadata.{Document, get_document_by_id}
use jenezis.Storage.Rows.{Value, none_value, text, number, other, Value_eq, Key, text_key}
use jenezis.Storage.Graph.{Graph}
use jenezis.Storage.Graph.Engine.{RelationRow, upsert_document, upsert_chunks}
use jenezis.Storage.Graph.Store.{add_entities_and_relations}
use jenezis.Ingestion.Records.{Entity, Relation, Schema}
use jenezis.Ingestion.Chunker.{Chunker, Chunk, Encoder, chunk}
use jenezis.Ingestion.Embedder.{embed_all}
use jenezis.Ingestion.Extractor.{ExtractionResult, TextChunk, is_falsy, extract_from_all_chunks}
use jenezis.Ingestion.Validator.{validate_and_filter}
use jenezis.Ingestion.Resolver.{NodeAlias, Services, Unresolved, resolve_all}
use jenezis.App.Tasks.{World, QueueItem, set_document_status}

-- The dict of a chunk, with its embedding.
abbrev pub chunk_doc : {O : Type 0} → Chunk → O → List (Key × Value O)
chunk_doc c embedding =
    (text_key (codes "id"), text c.id)
    ∷ (text_key (codes "text"), text c.text)
    ∷ (text_key (codes "token_count"), number c.token_count)
    ∷ (text_key (codes "sequence_num"), number c.sequence_num)
    ∷ (text_key (codes "embedding"), other embedding)
    ∷ []

-- `for i, c in enumerate(chunks): c['embedding'] = embeddings[i]`
unfoldable pub attach : {O : Type 0} → List Chunk → List O → Result (List (List (Key × Value O)))
attach [] embeddings = ok []
attach (c ∷ chunks) [] = raise runtime_error
attach (c ∷ chunks) (embedding ∷ embeddings) = do
  docs ← attach chunks embeddings
  ok (chunk_doc c embedding ∷ docs)

abbrev pub entity_doc : {O : Type 0} → Entity → List (Key × Value O)
entity_doc e =
    (text_key (codes "id"), text e.id)
    ∷ (text_key (codes "name"), text e.name)
    ∷ (text_key (codes "type"), text e.type)
    ∷ []

-- The schema as the validator reads it: membership of a text in a list asks for its texts only.
abbrev pub list_of : Json → List Text
list_of (arr xs) = texts xs
list_of _ = []

unfoldable pub schema_fields : Fields → Schema
schema_fields end = []
schema_fields (field k v fs) = (k, list_of v) ∷ schema_fields fs

unfoldable pub schema_of : Json → Schema
unfolding schema_fields
schema_of (obj fs) = schema_fields fs
schema_of _ = []

-- The text of the first chunk that contains the name, or else of the first chunk.
unfoldable pub context_text : Text → Chunk → List Chunk → Text
context_text name first chunks = elim (head? (filter (λ c. contains name c.text) chunks)) [
  | none ↦ first.text
  | some c ↦ c.text
]

abbrev pub queue_item : {S : Type 0} → Chunk → List Chunk → Unresolved S → QueueItem
queue_item first chunks item = record {
  name = item.name;
  entity_type = item.type;
  context_chunk = context_text item.name first chunks;
}

-- `if source_id and target_id and source_id != target_id`
abbrev pub remap_ends : {O : Type 0} → Relation Text → Option ℕ → Option ℕ → List (RelationRow O)
remap_ends rel (some (suc s)) (some (suc t)) =
    if suc s == suc t
    then []
    else record {
      source_id = number (suc s);
      target_id = number (suc t);
      type = some rel.type;
      chunk_id = text rel.chunk_id;
    }
      ∷ []
remap_ends rel _ _ = []

-- The loop over the validated relations.
unfoldable pub remap : {O : Type 0} → List (Text × ℕ) → List (Relation Text) → List (RelationRow O)
remap resolved_map [] = []
remap resolved_map (rel ∷ relations) =
    remap_ends rel (lookup rel.source_id resolved_map) (lookup rel.target_id resolved_map)
    ++ remap resolved_map relations

-- What the pipeline is set up with. `O` is the type of an embedding as well.
pub record Setup (T O S : Type 0) : Type 0 where
  pub unicode : Unicode
  pub encoder : Encoder T
  pub chunker : Chunker
  pub batch_size : ℕ
  pub is_invalid : O → Bool
  pub config_of : Document → Option Json
  pub parse : Document → Result Text
  pub complete : Sanitized → Text → Result ExtractionResult
  pub services : Services O S
  pub aliases : List NodeAlias

module _ {T O S : Type 0} ⦃e : Eq O⦄ (setup : Setup T O S) where
  -- The relations and the entities go to the graph; the items of the queue are written with the
  -- commit that follows.
  abbrev pub write_graph :
      List Entity
      → List (Relation Text)
      → Chunk
      → List Chunk
      → List (Text × ℕ) × List (Unresolved S)
      → World O
      → Result (Unit {0}) × World O
  write_graph entities relations first chunks (resolved_map, unresolved_items) w =
      let (result, graph) =
        add_entities_and_relations setup.is_invalid (map entity_doc entities)
          (remap resolved_map relations) w.graph in
      (result, record w { graph = graph }) >=> λ _ w'.
      (ok tt, record w' { queue = w'.queue ++ map (queue_item first chunks) unresolved_items })

  -- From the extraction on.
  abbrev pub harmonize :
      ℕ
      → Chunk
      → List Chunk
      → Json
      → List Entity × List (Relation Text)
      → World O
      → Result (Unit {0}) × World O
  harmonize document_id first chunks domain_config (entities, relations) w =
      if is_empty entities
      then set_document_status document_id completed (some (codes "No valid entities extracted.")) w
      else pure (resolve_all setup.services setup.aliases entities) w
        >=> (λ resolution. write_graph entities relations first chunks resolution)
        >=> λ _. set_document_status document_id completed none

  abbrev pub text_chunk : Chunk → TextChunk
  text_chunk c = record { id = c.id; text = c.text }

  -- The chunks with their embeddings.
  abbrev pub embed_chunks : List Chunk → Result (List (List (Key × Value O)))
  embed_chunks chunks = do
    embeddings ← embed_all setup.services.create setup.batch_size (map (λ c. c.text) chunks)
    attach chunks embeddings

  -- `add_document_node`, then `add_chunks`.
  abbrev pub write_chunks :
      Document → List (List (Key × Value O)) → World O → Result (Graph O) × World O
  write_chunks doc docs w =
      let graph = upsert_document doc.id doc.filename w.graph in
      pure (upsert_chunks setup.is_invalid doc.id docs graph) (record w { graph = graph })

  abbrev pub extract :
      List Chunk → Json → Graph O → World O → Result (List Entity × List (Relation Text)) × World O
  extract chunks domain_config graph w =
      pure
        (extract_from_all_chunks setup.unicode setup.complete (map text_chunk chunks) domain_config)
        (record w { graph = graph })

  abbrev pub validate :
      Json → List Entity × List (Relation Text) → List Entity × List (Relation Text)
  validate domain_config (entities, relations) =
      validate_and_filter (jenezis.Ingestion.Validator.init (schema_of domain_config)) entities
        relations

  -- The document and its chunks are written, and the extraction runs on them.
  abbrev pub ingest_chunks : Document → Json → List Chunk → World O → Result (Unit {0}) × World O
  ingest_chunks doc domain_config [] w =
      set_document_status doc.id completed (some (codes "Doc was empty.")) w
  ingest_chunks doc domain_config (first ∷ rest) w =
      pure (embed_chunks (first ∷ rest)) w
      >=> write_chunks doc
      >=> extract (first ∷ rest) domain_config
      >=> λ extracted.
          harmonize doc.id first (first ∷ rest) domain_config (validate domain_config extracted)

  abbrev pub ingest : Document → Option Json → World O → Result (Unit {0}) × World O
  ingest doc none w = (raise value_error, w)
  ingest doc (some domain_config) w =
      if is_falsy domain_config
      then (raise value_error, w)
      else pure (setup.parse doc) w >=> λ document_text.
          ingest_chunks doc domain_config (chunk setup.encoder setup.chunker document_text)

  -- One attempt of `process_document`.
  unfoldable pub process_document : ℕ → World O → Result (Unit {0}) × World O
  process_document document_id w = elim (get_document_by_id w.documents document_id) [
    | none ↦ (raise value_error, w)
    | some doc ↦
        set_document_status document_id processing none w >=> λ _. ingest doc (setup.config_of doc)
  ]
