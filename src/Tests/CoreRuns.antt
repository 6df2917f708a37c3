-- ===== src/Tests/CoreRuns.antt =====
-- The protection of the prompts and the API keys on concrete inputs.
use jenezis.Prelude.{
  ◌↔◌, In, nat_eq, ◌+◌, ◌*◌, ◌≡◌, refl, true, List, [], ◌∷◌, some, Text, Text_eq, codes, contains,
  text_eq,
}
use jenezis.Tests.Samples.{ascii}
use jenezis.Storage.Metadata.{ApiKey, get_api_key_by_hash}
use jenezis.Core.Security.{get_api_key, partition}
use jenezis.Core.Security.Access.{Grants, get_api_key-Grants}
use jenezis.Core.Prompt.Escape.{escape_fences}
use jenezis.Core.Prompt.Escape.Fences.{contains-escape_fences, ticks}
use jenezis.Core.Prompt.Sanitize.{normalize_unicode}
use jenezis.Core.Prompt.Regex.{Pattern, char, spaces, maybe, word, sequence}
use jenezis.Core.Prompt.Patterns.{injection_patterns, detect_injection_patterns}
use jenezis.Core.Prompt.Regex.Language.{Occurs}
use jenezis.Core.Prompt.Patterns.Found.{detect_injection_patterns_iff}

contains-escape_fences_example :
    contains (codes "```") (escape_fences (ticks (0 * 3 + 5) (codes "sh"))) ≡ true
contains-escape_fences_example = contains-escape_fences 0 (codes "sh") refl

abbrev keys_table : List ApiKey
keys_table = record { id = 3; key_hash = codes "s3cret"; is_active = true } ∷ []

get_api_key-Grants_example :
    (h : Text) × (some (codes "bearer s3cret") ≡ some h) × Grants ascii (λ t. t) h keys_table 3
unfolding get_api_key partition get_api_key_by_hash text_eq
get_api_key-Grants_example =
    get_api_key-Grants ascii (λ t. t) keys_table (some (codes "bearer s3cret")) 3 refl

abbrev mentions_admin : Pattern
mentions_admin = sequence (
    maybe (char b'[')
    ∷ word (codes "admin")
    ∷ maybe (char b']')
    ∷ spaces
    ∷ maybe (char b':')
    ∷ spaces
    ∷ [])

detect_injection_patterns_iff_example :
    (In mentions_admin (detect_injection_patterns nat_eq ascii (codes "an admin"))
      ↔ In mentions_admin injection_patterns
        × Occurs nat_eq mentions_admin (normalize_unicode ascii (ascii.lower (codes "an admin"))))
    × (detect_injection_patterns nat_eq ascii [] ≡ [])
detect_injection_patterns_iff_example =
    detect_injection_patterns_iff nat_eq ascii b'a' (codes "n admin") mentions_admin
