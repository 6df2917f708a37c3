-- ===== src/Tests/Samples.antt =====
-- The values that the tests share.
use jenezis.Prelude.{ℕ, [], ◌∷◌, none, some, codes, is_identifier_char, leb, ◌+◌, ◌-◌}
use jenezis.Core.Unicode.{Unicode}
use jenezis.Storage.Status.{pending}
use jenezis.Storage.Metadata.{Document}
use jenezis.Storage.Rows.{text, number}
use jenezis.Storage.Graph.{Graph}
use jenezis.Rag.Fusion.{Floats}

-- A table of characters that knows the ASCII ones, and no other case than the given one.
abbrev pub ascii : Unicode
ascii = record { is_word = is_identifier_char; lower = λ s. s; upper = λ s. s; nfc = λ s. s }

abbrev pub report : Document
report = record {
  id = 1;
  filename = codes "report.pdf";
  document_hash = codes "ab12";
  s3_path = codes "bucket/ab12_report.pdf";
  status = pending;
  error_log = none;
  domain_config_id = some 1;
}

-- Scores counted in natural numbers.
abbrev pub scores : Floats ℕ
scores = record { zero_score = 0; add = λ a b. a + b; reciprocal = λ n. 1000 - n; leb = leb }

abbrev pub graph : Graph ℕ
graph = record {
  documents = (1, codes "report.pdf") ∷ (2, codes "notes.txt") ∷ [];
  chunks =
      (text (codes "c1"), record { text = text (codes "Ada wrote"); embedding = number 0 })
      ∷ (text (codes "c2"), record { text = text (codes "to Bob"); embedding = number 0 })
      ∷ [];
  entities =
      (
        text (codes "ada"),
        record {
          name = text (codes "Ada");
          type = text (codes "Person");
          canonical_id = number 7;
          embedding = number 0;
        },
      )
      ∷ (
        text (codes "bob"),
        record {
          name = text (codes "Bob");
          type = text (codes "Person");
          canonical_id = number 8;
          embedding = number 0;
        },
      )
      ∷ [];
  has_chunk = (1, text (codes "c1")) ∷ (2, text (codes "c2")) ∷ [];
  mentions = (text (codes "c1"), text (codes "ada")) ∷ [];
  relations = (((text (codes "ada"), text (codes "bob")), codes "KNOWS"), text (codes "c1")) ∷ [];
}
