-- ===== src/Ingestion/Chunker/Windows.antt =====
-- What `Chunker.chunk` promises of a document's chunks.
use jenezis.Prelude.{
  ℕ, ◌+◌, ◌*◌, ◌/◌, ◌%◌, ◌≤◌, ◌<◌, ◌≡◌, ◌≢◌, refl, true, List, [], ◌∷◌, take, drop, get_elem?-take,
  get_elem?-drop, length-take, length-drop, length, get_elem?, none, some, ltb, arith,
  if◌then◌else◌, Text, ok, raise, value_error,
}
use jenezis.Ingestion.Chunker.{Chunker, init, Chunk, Encoder, make_chunk, chunk}
use jenezis.Ingestion.Chunker.Loop.{step, IsValid, get-chunk_loop}

-- The constructor accepts exactly the sizes whose overlap is smaller, and raises ValueError on all
-- others.
pub init-IsValid :
    (size overlap : ℕ)
    → (overlap < size
        → init size overlap ≡ ok (record { chunk_size = size; chunk_overlap = overlap }))
      × (size ≤ overlap → init size overlap ≡ raise value_error)
unfolding init
init-IsValid size overlap = (λ h. ground arith, λ h. ground arith)

module _ {T : Type 0} (encoder : Encoder T) (c : Chunker) (valid : IsValid c) where
  -- The chunk at `i` holds the tokens of the window that begins at `i` times the step, with
  -- sequence number `i` and their count, and there is such a chunk exactly while that is the index
  -- of a token.
  pub get-chunk :
      (document : Text) (i : ℕ)
      → document ≢ []
      → get_elem? (chunk encoder c document) i ≡ (
          if ltb (i * step c) (length (encoder.encode document))
          then some (
              make_chunk encoder c
                (take c.chunk_size (drop (i * step c) (encoder.encode document)))
                i)
          else none)
  unfolding chunk
  get-chunk [] i h = absurd (h refl)
  get-chunk (d ∷ ds) i h =
      let tokens = encoder.encode (d ∷ ds) in
      let e : 0 + i * step c ≡ i * step c = omega arith in
      let e' : 0 + i ≡ i = omega arith in
      rw (e, e') at (get-chunk_loop encoder c valid (length tokens) tokens 0 0 i (omega arith))

  -- Every chunk has at least one token and at most `chunk_size`, and the sequence numbers count the
  -- chunks from 0 on.
  pub chunk_bounds :
      (document : Text) (i : ℕ) (ch : Chunk)
      → get_elem? (chunk encoder c document) i ≡ some ch
      → (0 < ch.token_count) × (ch.token_count ≤ c.chunk_size) × (ch.sequence_num ≡ i)
  unfolding chunk
  chunk_bounds [] i ch h = cc
  chunk_bounds (d ∷ ds) i ch h =
      let tokens = encoder.encode (d ∷ ds) in
      ground (
        arith,
        get-chunk (d ∷ ds) i (λ e. cc),
        length-take c.chunk_size (drop (i * step c) tokens),
        length-drop (i * step c) tokens,
      )

  -- Where the overlap is smaller than the size, no token of a document that is not empty is lost:
  -- the token at `p` stands in the chunk at `p / step`, `p % step` places in.
  pub chunk_covers :
      (document : Text) (p : ℕ)
      → document ≢ []
      → p < length (encoder.encode document)
      → (window : List T) × (get_elem? (chunk encoder c document) (p / step c)
          ≡ some (make_chunk encoder c window (p / step c)))
        × (get_elem? window (p % step c) ≡ get_elem? (encoder.encode document) p)
  chunk_covers document p h k =
      let tokens = encoder.encode document in
      let i = p / step c in
      let start : i * step c + p % step c ≡ p = grind arith in
      let inside : ltb (i * step c) (length tokens) ≡ true = ground arith in
      let near : p % step c < c.chunk_size = omega arith in
      (
        take c.chunk_size (drop (i * step c) tokens),
        rw (get-chunk document i h, inside),
        rw (
          get_elem?-take c.chunk_size (drop (i * step c) tokens) (p % step c) near,
          get_elem?-drop (i * step c) tokens (p % step c),
          start,
        ),
      )
