-- ===== src/Storage/Identifiers.antt =====
-- The pattern `^[A-Za-z][A-Za-z0-9_]*$` of jenezis/storage/falkor_engine.py and graph_store.py, and
-- `_validate_identifier` of the engine.
pub mod Matches
use jenezis.Prelude.{
  ℕ, Bool, true, false, ◌&&◌, [], ◌∷◌, is_empty, nat_eq, Text, is_letter, is_identifier_char,
  Result, ok, raise, value_error, if◌then◌else◌,
}

-- `[A-Za-z0-9_]*$`: Python's `$` also matches before a newline that ends the text.
unfoldable pub match_rest : Text → Bool
match_rest [] = true
match_rest (c ∷ s) =
    let rest = match_rest s in if is_identifier_char c then rest else nat_eq c 10 && is_empty s

-- `VALID_IDENTIFIER_PATTERN.match(value)`, which is SAFE_LABEL_PATTERN too.
unfoldable pub matches_pattern : Text → Bool
unfolding match_rest
matches_pattern [] = false
matches_pattern (c ∷ s) = is_letter c && match_rest s

unfoldable pub validate_identifier : Text → Result (Unit {0})
validate_identifier value = if matches_pattern value then ok tt else raise value_error
