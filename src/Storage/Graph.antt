-- ===== src/Storage/Graph.antt =====
-- The graph of jenezis/storage/falkor_engine.py. A label is the dictionary of its nodes, from the
-- identifier to the properties; a relationship is the pair of the ends. Timestamps are left out.
pub mod Engine
pub mod Reads
pub mod Store
pub mod Invariant
pub mod Deletion
pub mod Schema
pub mod Search
use jenezis.Prelude.{
  ℕ, ◌≡◌, refl, ap, ◌↔◌, Bool, true, false, ◌&&◌, List, [], Text, Text_eq, ℕ_eq, Eq, ◌==◌, ==_refl,
  eq_of_==, subst, arith,
}
use jenezis.Storage.Rows.{Value, Value_eq}

module _ {A B : Type 0} ⦃d : Eq A⦄ ⦃e : Eq B⦄ where
  abbrev pub pair_eq : A × B → A × B → Bool
  pair_eq p q = p.0 == q.0 && p.1 == q.1

  pub pair_eq_iff : (p q : A × B) → (pair_eq p q ≡ true) ↔ (p ≡ q)
  pair_eq_iff (a, b) (a', b') = ground (arith, d.beq_iff a a', e.beq_iff b b')

  instance abbrev pub Pair_eq : Eq (A × B)
  Pair_eq = record { beq = pair_eq; beq_iff = pair_eq_iff }

pub record ChunkProps (O : Type 0) : Type 0 where
  pub text : Value O
  pub embedding : Value O

pub record EntityProps (O : Type 0) : Type 0 where
  pub name : Value O
  pub type : Value O
  pub canonical_id : Value O
  pub embedding : Value O

-- `documents` holds the file names. A key of `relations` is the two ends and the type;
-- its value is the property `chunk_id`.
pub record Graph (O : Type 0) : Type 0 where
  pub documents : List (ℕ × Text)
  pub chunks : List (Value O × ChunkProps O)
  pub entities : List (Value O × EntityProps O)
  pub has_chunk : List (ℕ × Value O)
  pub mentions : List (Value O × Value O)
  pub relations : List (((Value O × Value O) × Text) × Value O)

abbrev pub empty_graph : {O : Type 0} → Graph O
empty_graph = record {
  documents = [];
  chunks = [];
  entities = [];
  has_chunk = [];
  mentions = [];
  relations = [];
}
