-- ===== src/Storage/Graph/Search/Neighbors.antt =====
-- A relation that is written is read from both of its ends.
use jenezis.Prelude.{◌<◌, ◌⊎◌, length, ◌≡◌, true, List, In, Text, Text_eq, Eq}
use jenezis.Storage.Rows.{Value, Value_eq}
use jenezis.Storage.Graph.{Graph, Pair_eq}
use jenezis.Storage.Graph.Search.{Neighbor, matches, expand}

abbrev Relations : Type 0 → Type 0
Relations O = List (((Value O × Value O) × Text) × Value O)

module _ {O : Type 0} ⦃e : Eq O⦄ where
  -- The search reads the neighbour at the node, or the node has more than ten relationships, of which
  -- the search reads ten.
  abbrev pub IsRead : Graph O → Value O → Neighbor O → Type 0
  IsRead g id neighbor =
      In neighbor (expand g true id)
      ⊎ (10 < length (matches g id)) × (length (expand g true id) ≡ 10)
