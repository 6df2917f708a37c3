-- ===== src/Storage/Canonical.antt =====
-- `get_or_create_canonical_node` of jenezis/storage/metadata_store.py, with what other sessions
-- commit between its first SELECT and its INSERT.
pub mod Races
use jenezis.Prelude.{
  ℕ, Bool, true, false, List, [], ◌∷◌, ◌++◌, map, Option, none, some, elem, filter, head?, Text,
  Text_eq, Result, ok, raise, value_error, integrity_error, ◌==◌, if◌then◌else◌,
}

-- `E` is the type of an embedding.
pub record CanonicalNode (E : Type 0) : Type 0 where
  pub id : ℕ
  pub node_type : Text
  pub name : Text
  pub embedding : E

module _ {E : Type 0} where
  abbrev pub names : List (CanonicalNode E) → List Text
  names = map (λ n. n.name)

  -- `select(CanonicalNode).where(CanonicalNode.name == name)`, and the first row of it.
  unfoldable pub find_node : Text → List (CanonicalNode E) → Option (CanonicalNode E)
  find_node name db = head? (filter (λ n. n.name == name) db)

  -- The INSERT of a flush: the column `name` is unique.
  unfoldable pub flush_node :
      CanonicalNode E → List (CanonicalNode E) → Result (List (CanonicalNode E))
  flush_node node db =
      if elem node.name (names db) then raise integrity_error else ok (db ++ node ∷ [])

  -- `seen` is the table at the first SELECT, `others` what other sessions commit before the flush,
  -- `fresh` the identifier that the sequence of the table hands out. The session has flushed nothing of
  -- its own before the call, as in the one caller, so that the rollback undoes the insertion only.
  unfoldable pub get_or_create_canonical_node :
      (seen others : List (CanonicalNode E)) (fresh : ℕ) (name node_type : Text) (embedding : E)
      → Result (CanonicalNode E × Bool × List (CanonicalNode E))
  unfolding find_node flush_node
  get_or_create_canonical_node seen others fresh name node_type embedding =
      elim (find_node name seen) [
        | some existing ↦ ok (existing, false, seen)
        | none ↦
            let new_node : CanonicalNode E = record {
              id = fresh;
              node_type = node_type;
              name = name;
              embedding = embedding;
            } in
            elim (flush_node new_node (seen ++ others)) [
              | ok db ↦ ok (new_node, true, db)
              | raise _ ↦ elim (find_node name (seen ++ others)) [
                | some existing ↦ ok (existing, false, seen ++ others)
                | none ↦ raise value_error
              ]
            ]
      ]
