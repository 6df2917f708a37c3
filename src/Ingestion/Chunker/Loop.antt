-- ===== src/Ingestion/Chunker/Loop.antt =====
-- The `while` loop ends, and gives the windows of its specification.
use jenezis.Prelude.{
  ℕ, zero, suc, ◌+◌, ◌-◌, ◌*◌, ◌≤◌, ◌<◌, ◌≡◌, refl, ap, false, List, [], ◌∷◌, take, drop, length,
  get_elem?, none, some, ltb, is_empty, arith, Bool-cases, if◌then◌else◌, window_nonempty, inl, inr,
}
use jenezis.Ingestion.Chunker.{Chunker, Encoder, make_chunk, chunk_loop}

abbrev pub step : Chunker → ℕ
step c = c.chunk_size - c.chunk_overlap

-- What `__init__` checks.
abbrev pub IsValid : Chunker → Type 0
IsValid c = c.chunk_overlap < c.chunk_size

module _ {T : Type 0} (encoder : Encoder T) (c : Chunker) (valid : IsValid c) where
  step_pos : 0 < step c
  step_pos = omega arith

  window :
      (start : ℕ) (tokens : List T)
      → start < length tokens
      → is_empty (take c.chunk_size (drop start tokens)) ≡ false
  window start tokens h = window_nonempty c.chunk_size start tokens (omega arith) h

  -- Where the overlap is smaller than the size, fuel that reaches the end of the tokens is enough:
  -- any two such amounts give the same chunks.
  pub chunk_loop-fuel :
      (fuel fuel' : ℕ) (tokens : List T) (start k : ℕ)
      → length tokens ≤ start + fuel
      → length tokens ≤ start + fuel'
      → chunk_loop encoder c fuel tokens start k ≡ chunk_loop encoder c fuel' tokens start k
  unfolding chunk_loop
  chunk_loop-fuel zero zero tokens start k h h' = refl
  chunk_loop-fuel zero (suc fuel') tokens start k h h' = ground arith
  chunk_loop-fuel (suc fuel) zero tokens start k h h' = ground arith
  chunk_loop-fuel (suc fuel) (suc fuel') tokens start k h h' =
      ap
        (λ rest.
          if ltb start (length tokens)
          then if is_empty (take c.chunk_size (drop start tokens))
            then []
            else make_chunk encoder c (take c.chunk_size (drop start tokens)) k ∷ rest
          else [])
        (chunk_loop-fuel fuel fuel' tokens (start + step c) (k + 1) (omega arith) (omega arith))

  -- The chunk at `i` is the window that begins `i` steps on, as long as a token stands there.
  pub get-chunk_loop :
      (fuel : ℕ) (tokens : List T) (start k i : ℕ)
      → length tokens ≤ start + fuel
      → get_elem? (chunk_loop encoder c fuel tokens start k) i ≡ (
          if ltb (start + i * step c) (length tokens)
          then some
              (make_chunk encoder c (take c.chunk_size (drop (start + i * step c) tokens)) (k + i))
          else none)
  unfolding chunk_loop
  get-chunk_loop zero tokens start k i h = ground arith
  get-chunk_loop (suc fuel) tokens start k zero h =
      let e : start + 0 * step c ≡ start = omega arith in
      let e' : k + 0 ≡ k = omega arith in
      rw (e, e')
        (elim (Bool-cases (ltb start (length tokens))) [
          | inl more ↦ rw (more, window start tokens (ground arith))
          | inr done ↦ rw done
        ])
  get-chunk_loop (suc fuel) tokens start k (suc i) h =
      elim (Bool-cases (ltb start (length tokens))) [
        | inl more ↦
            let e : start + suc i * step c ≡ start + step c + i * step c = omega arith in
            let e' : k + suc i ≡ k + 1 + i = omega arith in
            rw (more, window start tokens (ground arith), e, e')
              (get-chunk_loop fuel tokens (start + step c) (k + 1) i (omega arith))
        | inr done ↦
            let past : ltb (start + suc i * step c) (length tokens) ≡ false = ground arith in
            rw (done, past)
      ]
