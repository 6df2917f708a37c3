-- ===== src/Core/Unicode.antt =====
-- What the code asks of the Unicode tables: the regular expression class `\w`, `str.lower`,
-- `str.upper` and the NFC form. The tables themselves are parameters.
use jenezis.Prelude.{ℕ, Bool, Text}

pub record Unicode : Type 0 where
  pub is_word : ℕ → Bool
  pub lower : Text → Text
  pub upper : Text → Text
  pub nfc : Text → Text
