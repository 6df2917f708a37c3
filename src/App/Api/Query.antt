-- ===== src/App/Api/Query.antt =====
-- The query endpoint of examples/fastapi_app/main.py. `json.dumps` is a parameter.
use jenezis.Prelude.{ℕ, List, map, Option, none, some, Text, Result, ok, ◌>>=◌}
use jenezis.Core.Unicode.{Unicode}
use jenezis.Rag.Fusion.{Floats}
use jenezis.Rag.Retriever.{Backend}
use jenezis.Rag.Generator.{Fields, Source, rag_query_with_sources}

-- An entry of the header `X-Sources`; `src.get` is null where the dict lacks the key. The score is that
-- of the fusion, or that of the search, where nothing was fused.
pub record SourceEntry : Type 0 where
  pub document_id : Option Text
  pub chunk_id : Option Text
  pub score : Option Text

pub record Answer : Type 0 where
  pub body : List Text
  pub x_sources : Text

module _ {D E S : Type 0} (u : Unicode) (backend : Backend D E) (floats : Floats S) (rrf_k : ℕ)
    (fields : Fields D) (stream : Text → Result (List Text)) (score_of : D → Option Text)
    (show_score : S → Text) (dumps : List SourceEntry → Text) where
  abbrev pub source_entry : Source D S → SourceEntry
  source_entry src = record {
    document_id = fields.document_id_of src.doc.rest;
    chunk_id = src.doc.chunk_id;
    score = elim src.fused_score [
      | none ↦ score_of src.doc.rest
      | some score ↦ some (show_score score)
    ];
  }

  unfoldable pub query_rag : Text → Result Answer
  unfolding rag_query_with_sources
  query_rag query = do
    (streamer, sources) ← rag_query_with_sources u backend floats rrf_k fields stream query
    ok (record { body = streamer; x_sources = dumps (map source_entry sources) })
