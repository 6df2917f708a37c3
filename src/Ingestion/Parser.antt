-- ===== src/Ingestion/Parser.antt =====
-- `parse_document` of jenezis/ingestion/parser.py. The bytes, the decoding of UTF-8, and docling's
-- converter, which gets the bytes through a temporary file, are parameters.
pub mod Formats
use jenezis.Prelude.{
  ℕ, Bool, true, false, ◌||◌, List, [], ◌∷◌, is_empty, elem, Option, none, some, Text, Text_eq,
  codes, ◌==◌, Result, ok, raise, value_error, runtime_error, if◌then◌else◌,
}
use jenezis.App.Filename.{rsplit_dot}

-- `Path(filename).suffix` of a name without slashes: a dot at either end begins no suffix.
unfoldable pub suffix : Text → Text
unfolding rsplit_dot
suffix filename = elim (rsplit_dot filename) [
  | none ↦ []
  | some (stem, ext) ↦ if is_empty stem || is_empty ext then [] else b'.' ∷ ext
]

abbrev pub supported_formats : List Text
supported_formats = codes ".pdf" ∷ codes ".docx" ∷ codes ".txt" ∷ codes ".md" ∷ []

-- `except Exception`: whatever goes wrong is a RuntimeError.
abbrev pub could_not_parse : Result Text → Result Text
could_not_parse (ok text_content) = ok text_content
could_not_parse (raise _) = raise runtime_error

module _ {B : Type 0} (lower : Text → Text) (decode : List B → Result Text)
    (convert : Text → List B → Result Text) where
  abbrev pub read_content : Text → List B → Result Text
  read_content file_ext content =
      if file_ext == codes ".txt" || file_ext == codes ".md"
      then decode content
      else convert file_ext content

  unfoldable pub parse_document : List B → Text → Result Text
  unfolding suffix
  parse_document content filename =
      let file_ext = lower (suffix filename) in
      if elem file_ext supported_formats
      then could_not_parse (read_content file_ext content)
      else raise value_error
