-- ===== src/Ingestion/Embedder.antt =====
-- The choice of a client and the batching of jenezis/ingestion/embedder.py. The provider's call is a
-- parameter.
pub mod Batches
use jenezis.Prelude.{
  ℕ, zero, suc, ◌+◌, Bool, List, [], ◌∷◌, ◌++◌, map, nat_eq, length, take, drop, ltb, is_empty,
  Text, Text_eq, codes, ◌==◌, Result, ok, raise, ◌>>=◌, value_error, not_implemented, if◌then◌else◌,
}

-- The clients of the OpenAI library that the constructors make, by their endpoint.
pub data Client : Type 0 where
  openai : Client
  openrouter : Client

-- `Embedder.__init__`
unfoldable pub init : Text → Result Client
init provider =
    if provider == codes "openai"
    then ok openai
    else if provider == codes "openrouter"
    then ok openrouter
    else if provider == codes "anthropic"
    then raise not_implemented
    else raise value_error

-- `text.replace("\n", " ")`
unfoldable pub clean_text : Text → Text
clean_text = map (λ c. if nat_eq c 10 then 32 else c)

-- `E` is the type of an embedding; `create` is the provider's endpoint on a list of texts.
module _ {E : Type 0} (create : List Text → Result (List E)) where
  unfoldable pub embed_batch : List Text → Result (List E)
  unfolding clean_text
  embed_batch texts = if is_empty texts then ok [] else create (map clean_text texts)

  -- The `for` loop over `range(0, len(texts), batch_size)`, on fuel: the batch at `i` and the rest.
  unfoldable pub embed_from : ℕ → ℕ → List Text → ℕ → Result (List E)
  unfolding embed_batch
  embed_from zero batch_size texts i = ok []
  embed_from (suc fuel) batch_size texts i =
      let rest = embed_from fuel batch_size texts (i + batch_size) in
      if ltb i (length texts)
      then (do
        batch_embeddings ← embed_batch (take batch_size (drop i texts))
        others ← rest
        ok (batch_embeddings ++ others))
      else ok []

  -- `range` raises ValueError where the step is 0; otherwise a round for each text is enough.
  unfoldable pub embed_all : ℕ → List Text → Result (List E)
  unfolding embed_from
  embed_all batch_size texts =
      if nat_eq batch_size 0
      then raise value_error
      else embed_from (length texts) batch_size texts 0
