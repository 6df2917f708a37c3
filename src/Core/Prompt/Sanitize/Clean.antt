-- ===== src/Core/Prompt/Sanitize/Clean.antt =====
-- What holds of every text that `sanitize_for_prompt` returns.
use jenezis.Prelude.{ℕ, ◌≡◌, ◌≢◌, false, Text, In, All}
use jenezis.Core.Unicode.{Unicode}
use jenezis.Core.Prompt.Escape.Fences.{HasShortRuns}
use jenezis.Core.Prompt.Escape.Tags.{HasNoTag}
use jenezis.Core.Prompt.Sanitize.{dangerous_unicode}

abbrev pub Lacks : ℕ → Text → Type 0
Lacks c = All (λ d. d ≢ c)

-- What the code relies on from the Unicode tables: no bracket is a word character, and the NFC form
-- of a text without an invisible character has none.
pub record Documented (u : Unicode) : Type 0 where
  pub brackets :
      (u.is_word 0x3008 ≡ false)
      × (u.is_word 0x3009 ≡ false)
      × (u.is_word b'<' ≡ false)
      × (u.is_word b'>' ≡ false)
  pub nfc-Lacks : (c : ℕ) (s : Text) → In c dangerous_unicode → Lacks c s → Lacks c (u.nfc s)

pub record IsClean (u : Unicode) (s : Text) : Type 0 where
  pub untagged : HasNoTag u.is_word s
  pub unfenced : HasShortRuns s
  pub visible : (c : ℕ) → In c dangerous_unicode → Lacks c s
