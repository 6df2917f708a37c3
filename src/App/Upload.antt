-- ===== src/App/Upload.antt =====
-- `validate_upload_size` of examples/fastapi_app/main.py. Bytes are of a type `B`, and the reads are
-- the chunks that `file.read` hands out, in order.
pub mod Limit
use jenezis.Prelude.{
  ℕ, ◌+◌, ◌*◌, Bool, true, false, not, ◌&&◌, List, [], ◌∷◌, ◌++◌, ltb, length, is_empty, Option,
  none, some, Text, Result, ok, raise, ◌>>=◌, ◌>>◌, Error, http_error, if◌then◌else◌,
}

abbrev pub max_upload_size_bytes : ℕ
max_upload_size_bytes = 52428800

abbrev pub too_large : Error
too_large = http_error 413

-- What `int` makes of the header: nothing, or a number with its sign (true for a negative one).
abbrev pub ParseInt : Type 0
ParseInt = Text → Option (Bool × ℕ)

-- The check of the header.
unfoldable pub check_declared : ParseInt → Option Text → Result (Unit {0})
check_declared int none = ok tt
check_declared int (some content_length) =
    if is_empty content_length then ok tt else elim (int content_length) [
      | none ↦ ok tt
      | some (negative, declared_size) ↦
          if not negative && ltb max_upload_size_bytes declared_size then raise too_large else ok tt
    ]

module _ {B : Type 0} where
  -- The `while True` loop: `total_size` bytes are read so far. The list of reads ends the loop too,
  -- as the file does.
  unfoldable pub read_loop : ℕ → List (List B) → Result (List B)
  read_loop total_size [] = ok []
  read_loop total_size (chunk ∷ reads) =
      let total = total_size + length chunk in
      let rest = read_loop total reads in
      if is_empty chunk
      then ok []
      else if ltb max_upload_size_bytes total
      then raise too_large
      else do tail ← rest; ok (chunk ++ tail)

  unfoldable pub validate_upload_size : ParseInt → Option Text → List (List B) → Result (List B)
  unfolding check_declared read_loop
  validate_upload_size int content_length reads = do
    check_declared int content_length
    read_loop 0 reads
