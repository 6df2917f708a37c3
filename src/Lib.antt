-- ===== src/Lib.antt =====
-- JENEZIS: documents are uploaded, cut into chunks, read by a language model into entities and
-- relations, resolved against a canonical store, written to a property graph, and asked by retrieval
-- and generation. The paths below are those of the repository; jenezis/ is the library and
-- examples/fastapi_app/ the application around it.
--
-- The parts, and the modules that model them:
--   Storage.Status, Storage.Metadata   jenezis/storage/metadata_store.py: the enumeration of the
--     statuses, VALID_STATUS_TRANSITIONS, validate_status_transition, update_document_status and the
--     functions on documents and API keys. A table is the list of its rows.
--   Storage.Canonical   get_or_create_canonical_node of the same file. The table at the first SELECT
--     and what other sessions commit before the flush are two arguments.
--   Storage.Identifiers, Storage.Labels   the label checks of jenezis/storage/graph_store.py and
--     `_validate_identifier` of jenezis/storage/falkor_engine.py; the regular expressions are functions
--     on code points.
--   Storage.Rows, Storage.Graph, Storage.Graph.Engine, Storage.Graph.Reads   `_sanitize_document` and the
--     methods of FalkorEngine that write the graph or read it by identifier. The graph is a record with a
--     dictionary for each label and the pairs of ends for each relationship; MERGE is the insertion into
--     them, MATCH the test for the key, DETACH DELETE the filter on nodes and relationships.
--   Storage.Graph.Store   GraphStore.add_entities_and_relations, with the graph that is left where it
--     raises; its child Methods has the methods that hand their arguments on.
--   Storage.Graph.Schema, Storage.Graph.Search   the index methods and the searches of FalkorEngine.
--   Storage.Costs   jenezis/storage/cost_tracker.py.
--   Core.Prompt.*, Core.Security   jenezis/core/prompt_security.py and jenezis/core/security.py. The
--     injection patterns are regular expressions as data, which Core.Prompt.Regex searches for.
--   Storage.Migrations.*   the revisions of alembic/versions/, as lists of statements on a catalogue of
--     tables, indexes and types.
--   Core.Config, Core.Connections   the secrets of jenezis/core/config.py, and the sessions and clients of
--     jenezis/core/connections.py.
--   Ingestion.*   the files of that name in jenezis/ingestion/.
--   Rag.Fusion, Rag.Retriever, Rag.Generator   jenezis/rag/retriever.py and jenezis/rag/generator.py.
--   App.Filename, App.Upload   sanitize_filename and validate_upload_size of
--     examples/fastapi_app/main.py.
--   App.Tasks.*   the tasks of examples/fastapi_app/tasks.py. Process has one attempt of
--     process_document, which composes the other parts: its steps are the functions of Ingestion, and its
--     writes those of Storage. Retries repeats it and has handle_dead_letter, Paths the path of an object
--     in the bucket, Worker the calls that a message of the broker makes, Delete the deletion, Enrich the
--     enrichment and its scheduler, Garbage the collection.
--   App.Api.*   the endpoints of examples/fastapi_app/main.py. Their state is a Server: the tables, with
--     the constraints that the database checks at a commit, the graph, the objects of the bucket, and the
--     messages in the broker. App.Api.Steps has the steps of the running system, in which the endpoints
--     and the attempts of the tasks come in any order; App.Api.Life is the abstract specification of what
--     becomes of the identifier of a document.
--   App.Startup   `lifespan` of the same file up to its `yield`.
--
-- How the code is read: a text is a list of code points; a dict is an association list in insertion
-- order; an exception is a value of Prelude's Error in a Result; a step that writes returns the state
-- that it leaves beside its result. Loops are structural recursion, with two exceptions that run on
-- fuel: the loop of the chunker, which gets one round for each token, enough because each round moves on
-- by at least one token where the overlap is smaller than the size; and `embed_all`, which gets one
-- round for each text, enough because the step is at least 1 (a step of 0 raises in `range`). The task
-- queue repeats an attempt as often as `max_retries` says. Floats are a parameter where they are compared
-- or added, and exact numbers in the costs. A request, and an attempt of a task, is one step of the
-- running system: what other processes write while it runs is modelled in Storage.Canonical only.
--
-- Parameters, with what is relied on stated where it is used: the Unicode tables (`\w`, lower and upper
-- case, NFC), the comparison of letters under re.IGNORECASE, sha256, tiktoken, uuid4, the model's answers,
-- the embedding provider, PostgreSQL's ILIKE, pgvector, the graph's vector and path queries, the errors of
-- its CREATE INDEX statements, whether the file store takes an object, the broker a message and a refresh
-- after a commit succeeds, which tables have rows, docling's converter, `json.dumps`,
-- and what Celery hands on from one call of a chain to the next.
--
-- Not modelled: a SELECT or a commit that fails for another reason than a constraint (but for the refresh
-- after a commit), logging, the set-up of Alembic in alembic/env.py, the script of scripts/ that scores
-- answers, the construction of the clients at import, timestamps, and the fixed texts of the prompts.
pub mod Prelude
pub mod Storage
pub mod Ingestion
pub mod Core
pub mod Rag
pub mod App
pub mod Tests
