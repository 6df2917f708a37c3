-- ===== src/Storage/Labels.antt =====
-- The label checks of jenezis/storage/graph_store.py, and the filter clause of its `hybrid_search`.
pub mod Safety
use jenezis.Prelude.{
  ℕ, ◌++◌, Bool, true, false, List, [], ◌∷◌, any, Option, none, some, length, ltb, not, is_empty,
  Text, codes, contains, strip, delete_char, Result, ok, raise, ◌>>=◌, ◌>>◌, invalid_label,
  if◌then◌else◌,
}
use jenezis.Storage.Identifiers.{matches_pattern}

abbrev pub max_label_length : ℕ
max_label_length = 64

-- Quotes, brackets, parentheses, the semicolon, `//`, and the newlines.
abbrev pub dangerous_patterns : List Text
dangerous_patterns =
    (96 ∷ [])
    ∷ (39 ∷ [])
    ∷ (34 ∷ [])
    ∷ (93 ∷ [])
    ∷ (91 ∷ [])
    ∷ (41 ∷ [])
    ∷ (40 ∷ [])
    ∷ (59 ∷ [])
    ∷ (47 ∷ 47 ∷ [])
    ∷ (10 ∷ [])
    ∷ (13 ∷ [])
    ∷ []

-- `label.replace('\x00', '').strip()`
unfoldable pub clean_label : Text → Text
clean_label label = strip (delete_char 0 label)

-- The loop over the dangerous patterns.
unfoldable pub is_dangerous : Text → Bool
is_dangerous label = any (λ p. contains p label) dangerous_patterns

unfoldable pub sanitize_label : Text → Result Text
sanitize_label label =
    if is_empty label
    then raise invalid_label
    else if ltb max_label_length (length (clean_label label))
    then raise invalid_label
    else if not (matches_pattern (clean_label label))
    then raise invalid_label
    else if is_dangerous label
    then raise invalid_label
    else ok (clean_label label)

-- An entity or a relation with its `type`, which `.get('type', '')` reads.
abbrev pub type_or_empty : Option Text → Text
type_or_empty none = []
type_or_empty (some t) = t

-- `sanitize_entities` and `sanitize_relations`: each type is checked, the batch is returned as it is.
module _ {A : Type 0} (type_of : A → Option Text) where
  unfoldable pub sanitize_types : List A → Result (Unit {0})
  sanitize_types [] = ok tt
  sanitize_types (x ∷ xs) = do _ ← sanitize_label (type_or_empty (type_of x)); sanitize_types xs

  unfoldable pub sanitize_batch : List A → Result (List A)
  unfolding sanitize_types
  sanitize_batch xs = do sanitize_types xs; ok xs

-- The `WHERE` clause that `GraphStore.hybrid_search` puts into the query: the type is checked, and
-- the unchanged text is what goes between the quotes.
unfoldable pub type_filter : Option Text → Result Text
type_filter none = ok []
type_filter (some t) =
    if is_empty t
    then ok []
    else do _ ← sanitize_label t; ok (codes "WHERE node.type = '" ++ (t ++ codes "'"))
