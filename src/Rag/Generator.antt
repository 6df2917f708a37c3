-- ===== src/Rag/Generator.antt =====
-- `Generator` of jenezis/rag/generator.py. The stream of the provider is a parameter; the answer is
-- the list of the texts that the generator yields.
pub mod Sources
use jenezis.Prelude.{
  ℕ, Bool, List, [], ◌∷◌, ◌++◌, map, Option, none, some, Text, Text_eq, codes, ◌==◌, Result, ok,
  raise, ◌>>=◌, not_implemented, value_error, if◌then◌else◌,
}
use jenezis.Core.Unicode.{Unicode}
use jenezis.Core.Prompt.Sanitize.{sanitize_for_prompt}
use jenezis.Core.Prompt.Context.{ContextDoc, sanitize_context_for_generation}
use jenezis.Rag.Fusion.{Floats, Found, Fused}
use jenezis.Rag.Retriever.{Backend, Retrieved, found, fused, retrieve}

-- The client that the constructor makes.
pub data Client : Type 0 where
  openai : Client
  openrouter : Client

-- `Generator.__init__`
unfoldable pub init : Text → Result Client
init provider =
    if provider == codes "openai"
    then ok openai
    else if provider == codes "openrouter"
    then ok openrouter
    else if provider == codes "anthropic"
    then raise not_implemented
    else raise value_error

-- The default of `max_context_length`.
abbrev pub max_context_length : ℕ
max_context_length = 50000

abbrev pub no_results : Text
no_results =
    codes "I am sorry, but I could not find any relevant information to answer this question."

abbrev pub failure : Text
failure = codes "An error occurred while generating the response."

-- The text of a retrieved dict and its `document_id`.
pub record Fields (D : Type 0) : Type 0 where
  pub text_of : D → Option Text
  pub document_id_of : D → Option Text

-- A retrieved dict: that of a search, in which the fusion has set the key `score` anew.
pub record Source (D S : Type 0) : Type 0 where
  pub doc : Found D
  pub fused_score : Option S

module _ {D S : Type 0} where
  abbrev pub context_doc : Fields D → Source D S → ContextDoc
  context_doc fields source = record {
    text = fields.text_of source.doc.rest;
    document_id = fields.document_id_of source.doc.rest;
    chunk_id = source.doc.chunk_id;
  }

  abbrev pub fused_source : Fused D S → Source D S
  fused_source result = record { doc = result.doc; fused_score = some result.score }

  abbrev pub sources_of : Retrieved D S → List (Source D S)
  sources_of (found docs) = map (λ doc. record { doc = doc; fused_score = none }) docs
  sources_of (fused results) = map fused_source results

abbrev pub build_prompt : Unicode → Text → List ContextDoc → Text
build_prompt u query sources =
    codes "User Question: "
    ++ (sanitize_for_prompt u query
        ++ (10 ∷ 10 ∷ codes "--- Context ---"
            ++ (10 ∷ sanitize_context_for_generation u max_context_length sources)))

-- The `try` around the call of the provider.
abbrev pub respond : {A : Type 0} → Result (List Text) → List A → List Text × List A
respond (ok contents) sources = (contents, sources)
respond (raise _) sources = (failure ∷ [], [])

module _ {D E S : Type 0} (u : Unicode) (backend : Backend D E) (floats : Floats S)
    (rrf_k : ℕ) where
  module _ (fields : Fields D) (stream : Text → Result (List Text)) where
    -- The steps after the retrieval.
    abbrev pub answer : Text → List (Source D S) → List Text × List (Source D S)
    answer query [] = (no_results ∷ [], [])
    answer query (source ∷ sources) =
        respond (stream (build_prompt u query (map (context_doc fields) (source ∷ sources))))
          (source ∷ sources)

    unfoldable pub rag_query_with_sources : Text → Result (List Text × List (Source D S))
    rag_query_with_sources query = do
      sources ← retrieve u backend floats rrf_k query 5 (codes "hybrid")
      ok (answer query (sources_of sources))
