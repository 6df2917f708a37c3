-- ===== src/Core/Prompt/Sanitize.antt =====
-- `normalize_unicode` and `sanitize_for_prompt` of jenezis/core/prompt_security.py. The scan of
-- Core.Prompt.Patterns only writes a warning to the log, and is not part of the result.
pub mod Clean
use jenezis.Prelude.{ℕ, Bool, false, List, [], ◌∷◌, is_empty, Text, delete_char, if◌then◌else◌}
use jenezis.Core.Unicode.{Unicode}
use jenezis.Core.Prompt.Escape.{escape_fences, escape_tags}

-- The keys of DANGEROUS_UNICODE, all of which are replaced by nothing.
abbrev pub dangerous_unicode : List ℕ
dangerous_unicode =
    0x200b ∷ 0x200c ∷ 0x200d ∷ 0x2060 ∷ 0xfeff ∷ 0x00ad ∷ 0x202a ∷ 0x202b ∷ 0x202c ∷ 0x202d ∷ 0x202e
    ∷ []

-- The loop of `text.replace(char, '')`.
unfoldable pub delete_all : List ℕ → Text → Text
delete_all [] text = text
delete_all (char ∷ chars) text = delete_all chars (delete_char char text)

module _ (u : Unicode) where
  unfoldable pub normalize_unicode : Text → Text
  unfolding delete_all
  normalize_unicode text = if is_empty text then text else u.nfc (delete_all dangerous_unicode text)

  unfoldable pub sanitize_for_prompt : Text → Text
  unfolding normalize_unicode escape_fences escape_tags
  sanitize_for_prompt text =
      if is_empty text
      then text
      else escape_tags u.is_word false (escape_fences (normalize_unicode text))
