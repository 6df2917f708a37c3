-- ===== src/Tests/IngestionRuns.antt =====
-- The steps of the ingestion on concrete inputs.
use jenezis.Prelude.{
  ℕ, ◌/◌, ◌%◌, ◌≡◌, refl, false, List, [], ◌∷◌, map, length, get_elem?, none, some, Text, Text_eq,
  codes, text_eq, ok, arith, inl, inr,
}
use jenezis.Ingestion.Records.{Entity}
use jenezis.Ingestion.Chunker.{Chunker, Encoder, chunk, make_chunk}
use jenezis.Ingestion.Chunker.Loop.{step}
use jenezis.Ingestion.Chunker.Windows.{chunk_covers}
use jenezis.Ingestion.Embedder.{embed_batch, clean_text}
use jenezis.Ingestion.Resolver.{
  NodeAlias, Unresolved, Services, find_by_exact_match, resolve_all, resolve_entity,
  find_by_vector_similarity,
}
use jenezis.Ingestion.Resolver.Outcome.{Handled, resolve_all-Handled}

-- A token for each character.
abbrev characters : Encoder ℕ
characters = record { encode = λ t. t; decode = λ t. t; uuid4 = λ n. n ∷ [] }

abbrev windows : Chunker
windows = record { chunk_size = 4; chunk_overlap = 1 }

chunk_covers_example :
    (window : List ℕ) × (get_elem?
        (chunk characters windows (codes "Hello, world"))
        (7 / step windows)
      ≡ some (make_chunk characters windows window (7 / step windows)))
    × (get_elem? window (7 % step windows) ≡ get_elem? (codes "Hello, world") 7)
chunk_covers_example =
    chunk_covers characters windows (omega arith) (codes "Hello, world") 7 (λ h. cc h) (omega arith)

abbrev ada : Entity
ada = record { id = codes "e1"; name = codes "Ada"; type = codes "Person" }

abbrev rome : Entity
rome = record { id = codes "e2"; name = codes "Rome"; type = codes "City" }

-- Names are compared as they are, no vector is near, and the provider answers with one.
abbrev services : Services ℕ ℕ
services = record {
  ilike = λ alias pattern. text_eq alias pattern;
  create = λ ts. ok (map length ts);
  is_missing = λ n. false;
  nearest = λ n. none;
  is_confident = λ n. false;
  zero_similarity = 0;
}

abbrev aliases : List NodeAlias
aliases = record { alias = codes "Ada"; canonical_node_id = 7 } ∷ []

abbrev outcome : List (Text × ℕ) × List (Unresolved ℕ)
outcome = (
  (codes "e1", 7) ∷ [],
  record {
    name = codes "Rome";
    type = codes "City";
    similarity_match = record { node_name = none; similarity = 0 };
  }
      ∷ [],
)

resolve_all-Handled_example : Handled services aliases outcome rome
unfolding resolve_all resolve_entity find_by_exact_match find_by_vector_similarity clean_text
    text_eq embed_batch
resolve_all-Handled_example =
    resolve_all-Handled services aliases (ada ∷ rome ∷ []) outcome refl rome (inr (inl refl))
