-- ===== src/Core/Prompt/Patterns.antt =====
-- INJECTION_PATTERNS and `detect_injection_patterns` of jenezis/core/prompt_security.py.
pub mod Found
use jenezis.Prelude.{
  ℕ, Bool, true, false, not, ◌||◌, List, [], ◌∷◌, ◌++◌, filter, is_empty, Text, codes, is_space,
  if◌then◌else◌,
}
use jenezis.Core.Unicode.{Unicode}
use jenezis.Core.Prompt.Sanitize.{normalize_unicode}
use jenezis.Core.Prompt.Regex.{
  Pattern, empty, char, space, spaces, both, either, maybe, word, sequence, some_spaces, maybe_word,
  search,
}

abbrev quote : Pattern
quote = maybe (char 34)

abbrev direct_overrides : List Pattern
direct_overrides =
    sequence (
      word (codes "ignore")
      ∷ some_spaces
      ∷ maybe_word (codes "all")
      ∷ word (codes "previous")
      ∷ some_spaces
      ∷ word (codes "instruction")
      ∷ maybe (char b's')
      ∷ [])
    ∷ sequence (
        word (codes "ignore")
        ∷ some_spaces
        ∷ maybe_word (codes "all")
        ∷ word (codes "above")
        ∷ some_spaces
        ∷ word (codes "instruction")
        ∷ maybe (char b's')
        ∷ [])
    ∷ sequence (
        word (codes "disregard")
        ∷ some_spaces
        ∷ maybe_word (codes "all")
        ∷ word (codes "previous")
        ∷ [])
    ∷ sequence (
        word (codes "forget")
        ∷ some_spaces
        ∷ maybe_word (codes "all")
        ∷ word (codes "previous")
        ∷ [])
    ∷ sequence (
        word (codes "override")
        ∷ some_spaces
        ∷ maybe_word (codes "system")
        ∷ word (codes "instruction")
        ∷ maybe (char b's')
        ∷ [])
    ∷ []

abbrev role_confusion : List Pattern
role_confusion =
    sequence (
      maybe (char b'[')
      ∷ word (codes "system")
      ∷ maybe (char b']')
      ∷ spaces
      ∷ maybe (char b':')
      ∷ spaces
      ∷ word (codes "override")
      ∷ [])
    ∷ sequence (
        maybe (char b'[')
        ∷ word (codes "admin")
        ∷ maybe (char b']')
        ∷ spaces
        ∷ maybe (char b':')
        ∷ spaces
        ∷ [])
    ∷ sequence (
        word (codes "as")
        ∷ some_spaces
        ∷ maybe_word (codes "the")
        ∷ word (codes "system")
        ∷ some_spaces
        ∷ word (codes "administrator")
        ∷ [])
    ∷ sequence (
        word (codes "you")
        ∷ some_spaces
        ∷ word (codes "are")
        ∷ some_spaces
        ∷ word (codes "now")
        ∷ some_spaces
        ∷ maybe_word (codes "in")
        ∷ either (word (codes "debug")) (either (word (codes "admin")) (word (codes "root")))
        ∷ some_spaces
        ∷ word (codes "mode")
        ∷ [])
    ∷ []

abbrev fake_messages : List Pattern
fake_messages =
    sequence (char b'<' ∷ maybe (char b'/') ∷ word (codes "system>") ∷ [])
    ∷ sequence (
        char 123
        ∷ quote
        ∷ word (codes "role")
        ∷ quote
        ∷ spaces
        ∷ char b':'
        ∷ spaces
        ∷ quote
        ∷ word (codes "system")
        ∷ [])
    ∷ []

abbrev jailbreaks : List Pattern
jailbreaks =
    either (word (codes "DAN")) (
      either (word (codes "jailbreak")) (
        sequence (
          word (codes "do")
          ∷ some_spaces
          ∷ word (codes "anything")
          ∷ some_spaces
          ∷ word (codes "now")
          ∷ [])))
    ∷ sequence (
        word (codes "pretend")
        ∷ some_spaces
        ∷ maybe_word (codes "you")
        ∷ either (word (codes "are")) (either (word (codes "can")) (word (codes "have")))
        ∷ some_spaces
        ∷ word (codes "no")
        ∷ some_spaces
        ∷ either (both (word (codes "restriction")) (maybe (char b's'))) (
            either (both (word (codes "rule")) (maybe (char b's')))
              (both (word (codes "limit")) (maybe (char b's'))))
        ∷ [])
    ∷ []

abbrev manipulations : List Pattern
manipulations =
    sequence (
      word (codes "respond")
      ∷ some_spaces
      ∷ word (codes "only")
      ∷ some_spaces
      ∷ word (codes "with")
      ∷ [])
    ∷ sequence (
        word (codes "output")
        ∷ some_spaces
        ∷ either (word (codes "only")) (word (codes "your"))
        ∷ some_spaces
        ∷ maybe_word (codes "system")
        ∷ word (codes "prompt")
        ∷ [])
    ∷ sequence (
        word (codes "print")
        ∷ some_spaces
        ∷ word (codes "your")
        ∷ some_spaces
        ∷ maybe_word (codes "system")
        ∷ word (codes "instructions")
        ∷ [])
    ∷ []

abbrev pub injection_patterns : List Pattern
injection_patterns =
    direct_overrides ++ (role_confusion ++ (fake_messages ++ (jailbreaks ++ manipulations)))

module _ (same_letter : ℕ → ℕ → Bool) where
  -- The patterns of the list that are found, in its order.
  unfoldable pub detect_injection_patterns : Unicode → Text → List Pattern
  unfolding search normalize_unicode
  detect_injection_patterns u text =
      if is_empty text
      then []
      else filter (λ p. search same_letter p (normalize_unicode u (u.lower text)))
          injection_patterns
