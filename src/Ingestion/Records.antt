-- ===== src/Ingestion/Records.antt =====
-- The dicts for entities and relations that the steps of the pipeline hand to one another, and the
-- ontology schema as the dictionary of its lists.
use jenezis.Prelude.{List, Text}

pub record Entity : Type 0 where
  pub id : Text
  pub name : Text
  pub type : Text

-- `I` is the type of the identifiers: the model's texts at first, canonical numbers after the
-- resolution.
pub record Relation (I : Type 0) : Type 0 where
  pub source_id : I
  pub target_id : I
  pub type : Text
  pub chunk_id : Text

abbrev pub Schema : Type 0
Schema = List (Text × List Text)
