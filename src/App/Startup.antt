-- ===== src/App/Startup.antt =====
-- `lifespan` of examples/fastapi_app/main.py up to its `yield`: the first API key, the indexes of the
-- graph, and the generator.
pub mod Keys
pub mod Provider
use jenezis.Prelude.{
  ℕ, suc, Bool, true, false, ◌||◌, List, [], ◌∷◌, ◌++◌, is_empty, Option, none, some, Text, Text_eq,
  codes, ◌==◌, Result, ok, raise, ◌>>=◌, ◌>>◌, runtime_error, if◌then◌else◌,
}
use jenezis.Storage.Metadata.{ApiKey}
use jenezis.Storage.Graph.Schema.{Index, Database, initialize_schema}
use jenezis.Ingestion.Embedder
use jenezis.Rag.Generator.{Client, init}
use jenezis.App.Api.{Server}

abbrev pub placeholder : Text
placeholder = codes "change-me-to-a-very-secure-secret-on-first-boot"

-- `not settings.INITIAL_ADMIN_KEY or settings.INITIAL_ADMIN_KEY == ...`
abbrev pub is_unset : Option Text → Bool
is_unset none = true
is_unset (some key) = is_empty key || key == placeholder

abbrev pub first_key : (Text → Text) → ℕ → Text → ApiKey
first_key get_key_hash id key = record { id = id; key_hash = get_key_hash key; is_active = true }

abbrev pub or_empty : Option Text → Text
or_empty none = []
or_empty (some key) = key

-- The indexes are asked for where the session before has returned.
abbrev pub if_returned : Result (Unit {0}) → List Index → List Index → List Index
if_returned (ok _) after before = after
if_returned (raise _) after before = before

module _ {B O : Type 0} (get_key_hash : Text → Text) where
  -- The session of the start: `key_count == 0` is the emptiness of the table.
  unfoldable pub provision : Option Text → Server B O → Result (Unit {0}) × Server B O
  provision initial_admin_key s =
      if is_empty s.api_keys
      then (if is_unset initial_admin_key then (raise runtime_error, s) else (
        ok tt,
        record s {
          api_keys = first_key get_key_hash s.api_key_ids (or_empty initial_admin_key) ∷ [];
          api_key_ids = suc s.api_key_ids;
        },
      ))
      else (ok tt, s)

  -- The steps in order. The retriever makes an embedder, and then the generator is made, both for
  -- `llm_provider`.
  unfoldable pub startup :
      Database
      → Option Text
      → Text
      → Server B O × List Index
      → Result Client × Server B O × List Index
  unfolding provision initialize_schema init Embedder.init
  startup db initial_admin_key llm_provider (s, indexes) =
      let (provisioned, s') = provision initial_admin_key s in
      let (initialized, indexes') = initialize_schema db indexes in
      (
        provisioned
            >> initialized
            >> (Embedder.init llm_provider >>= λ embedder. init llm_provider),
        s',
        if_returned provisioned indexes' indexes,
      )
