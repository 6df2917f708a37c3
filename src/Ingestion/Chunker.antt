-- ===== src/Ingestion/Chunker.antt =====
-- jenezis/ingestion/chunker.py. tiktoken's encoder and `uuid.uuid4` are parameters.
pub mod Loop
pub mod Windows
use jenezis.Prelude.{
  ℕ, zero, suc, ◌+◌, ◌-◌, Bool, List, [], ◌∷◌, take, drop, length, ltb, leb, is_empty, Text, Result,
  ok, raise, value_error, if◌then◌else◌,
}

pub record Chunker : Type 0 where
  pub chunk_size : ℕ
  pub chunk_overlap : ℕ

-- `Chunker.__init__`
unfoldable pub init : ℕ → ℕ → Result Chunker
init chunk_size chunk_overlap =
    if leb chunk_size chunk_overlap
    then raise value_error
    else ok (record { chunk_size = chunk_size; chunk_overlap = chunk_overlap })

-- The dict that stands for a chunk.
pub record Chunk : Type 0 where
  pub id : Text
  pub text : Text
  pub token_count : ℕ
  pub sequence_num : ℕ

-- `encode` and `decode` are tiktoken's, over tokens of type `T`; `uuid4 n` is the text of the `n`-th
-- identifier that is drawn.
pub record Encoder (T : Type 0) : Type 0 where
  pub encode : Text → List T
  pub decode : List T → Text
  pub uuid4 : ℕ → Text

module _ {T : Type 0} (encoder : Encoder T) (c : Chunker) where
  abbrev pub make_chunk : List T → ℕ → Chunk
  make_chunk chunk_tokens chunk_seq_num = record {
    id = encoder.uuid4 chunk_seq_num;
    text = encoder.decode chunk_tokens;
    token_count = length chunk_tokens;
    sequence_num = chunk_seq_num;
  }

  -- The `while` loop, on fuel. `start_index` is the index of the next window.
  unfoldable pub chunk_loop : ℕ → List T → ℕ → ℕ → List Chunk
  chunk_loop zero tokens start_index chunk_seq_num = []
  chunk_loop (suc fuel) tokens start_index chunk_seq_num =
      let chunk_tokens = take c.chunk_size (drop start_index tokens) in
      let rest =
        chunk_loop fuel tokens (start_index + (c.chunk_size - c.chunk_overlap))
          (chunk_seq_num + 1) in
      if ltb start_index (length tokens)
      then if is_empty chunk_tokens then [] else make_chunk chunk_tokens chunk_seq_num ∷ rest
      else []

  -- Each round moves on by at least one token, so one round for each token is enough.
  unfoldable pub chunk : Text → List Chunk
  unfolding chunk_loop
  chunk document_text =
      if is_empty document_text
      then []
      else let tokens = encoder.encode document_text in chunk_loop (length tokens) tokens 0 0
