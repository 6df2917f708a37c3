-- ===== src/Core/Prompt/Regex.antt =====
-- The regular expressions of jenezis/core/prompt_security.py, and `search` of Python's re module, which
-- tries every way that backtracking may take. The comparison of characters under re.IGNORECASE is a
-- parameter.
pub mod Language
use jenezis.Prelude.{
  ℕ, Bool, true, false, not, ◌||◌, List, [], ◌∷◌, ◌++◌, filter, is_empty, Text, codes, is_space,
  if◌then◌else◌,
}
use jenezis.Core.Unicode.{Unicode}
use jenezis.Core.Prompt.Sanitize.{normalize_unicode}

-- `spaces` is `\s*`, `maybe` is `?`, and `either` is `|`.
pub data Pattern : Type 0 where
  empty : Pattern
  char : ℕ → Pattern
  space : Pattern
  spaces : Pattern
  both : Pattern → Pattern → Pattern
  either : Pattern → Pattern → Pattern
  maybe : Pattern → Pattern

-- A pattern without special characters.
abbrev pub word : Text → Pattern
word [] = empty
word (c ∷ s) = both (char c) (word s)

abbrev pub sequence : List Pattern → Pattern
sequence [] = empty
sequence (p ∷ ps) = both p (sequence ps)

-- `\s+`
abbrev pub some_spaces : Pattern
some_spaces = both space spaces

-- `(all\s+)?`
abbrev pub maybe_word : Text → Pattern
maybe_word w = maybe (both (word w) some_spaces)

-- What is left of the text behind each run of `\s*`.
abbrev pub skip_spaces : Text → List Text
skip_spaces [] = [] ∷ []
skip_spaces (c ∷ s) = let rest = skip_spaces s in (c ∷ s) ∷ (if is_space c then rest else [])

abbrev pub skip_one : (ℕ → Bool) → Text → List Text
skip_one p [] = []
skip_one p (c ∷ s) = if p c then s ∷ [] else []

abbrev pub each : (Text → List Text) → List Text → List Text
each f [] = []
each f (s ∷ texts) = f s ++ each f texts

module _ (same_letter : ℕ → ℕ → Bool) where
  -- What is left of the text behind each way to match the pattern at its start.
  unfoldable pub rests : Pattern → Text → List Text
  rests empty text = text ∷ []
  rests (char c) text = skip_one (same_letter c) text
  rests space text = skip_one is_space text
  rests spaces text = skip_spaces text
  rests (both p q) text = each (rests q) (rests p text)
  rests (either p q) text = rests p text ++ rests q text
  rests (maybe p) text = rests p text ++ text ∷ []

  -- `pattern.search`
  unfoldable pub search : Pattern → Text → Bool
  unfolding rests
  search p [] = not (is_empty (rests p []))
  search p (c ∷ s) = not (is_empty (rests p (c ∷ s))) || search p s
