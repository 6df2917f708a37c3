-- ===== src/Rag/Generator/Sources.antt =====
-- Which sources an answer is given with.
use jenezis.Prelude.{ℕ, ◌≡◌, ◌⊎◌, List, [], ◌∷◌, map, Text, Result, ok}
use jenezis.Core.Unicode.{Unicode}
use jenezis.Rag.Fusion.{Floats}
use jenezis.Rag.Retriever.{Backend}
use jenezis.Rag.Generator.{Fields, Source, context_doc, build_prompt, no_results, failure}

module _ {D E S : Type 0} (u : Unicode) (backend : Backend D E) (floats : Floats S)
    (rrf_k : ℕ) where
  module _ (fields : Fields D) (stream : Text → Result (List Text)) where
    -- An answer from the model, on a prompt made of the sources, or a fixed one without sources.
    abbrev pub IsSourced : Text → List Text × List (Source D S) → Type 0
    IsSourced query out =
        (stream (build_prompt u query (map (context_doc fields) out.1)) ≡ ok out.0)
        ⊎ ((out.1 ≡ []) × ((out.0 ≡ no_results ∷ []) ⊎ (out.0 ≡ failure ∷ [])))
