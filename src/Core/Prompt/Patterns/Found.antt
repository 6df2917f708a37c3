-- ===== src/Core/Prompt/Patterns/Found.antt =====
-- Which patterns are reported.
use jenezis.Prelude.{ℕ, Bool, true, ◌≡◌, refl, ◌↔◌, [], ◌∷◌, filter, In, In-filter, filter-In, Text}
use jenezis.Core.Unicode.{Unicode}
use jenezis.Core.Prompt.Sanitize.{normalize_unicode}
use jenezis.Core.Prompt.Regex.{Pattern, search}
use jenezis.Core.Prompt.Regex.Language.{Occurs, search-Occurs, Occurs-search}
use jenezis.Core.Prompt.Patterns.{injection_patterns, detect_injection_patterns}

module _ (same_letter : ℕ → ℕ → Bool) where
  -- In a text that is not empty, exactly those patterns of the list are reported of which the lower case
  -- of the text, without its invisible characters and in normal form, has a text of the language in it;
  -- the language is that of the regular expressions, given by their constructors. In an empty text none
  -- is reported.
  pub detect_injection_patterns_iff :
      (u : Unicode) (c : ℕ) (text : Text) (p : Pattern)
      → (In p (detect_injection_patterns same_letter u (c ∷ text))
          ↔ In p injection_patterns
            × Occurs same_letter p (normalize_unicode u (u.lower (c ∷ text))))
        × (detect_injection_patterns same_letter u [] ≡ [])
  unfolding detect_injection_patterns
  detect_injection_patterns_iff u c text p =
      ((λ h. found (In-filter finds p injection_patterns h), put), refl)
    where
      finds : Pattern → Bool
      finds q = search same_letter q (normalize_unicode u (u.lower (c ∷ text)))

      found :
          In p injection_patterns
            × (search same_letter p (normalize_unicode u (u.lower (c ∷ text))) ≡ true)
          → In p injection_patterns
            × Occurs same_letter p (normalize_unicode u (u.lower (c ∷ text)))
      found (known, seen) = (known, search-Occurs same_letter p _ seen)

      put :
          In p injection_patterns × Occurs same_letter p (normalize_unicode u (u.lower (c ∷ text)))
          → In p (
              filter
                (λ q. search same_letter q (normalize_unicode u (u.lower (c ∷ text))))
                injection_patterns)
      put (known, occurs) =
          let (before, matched, after, split, m) = occurs in
          filter-In (λ q. search same_letter q (normalize_unicode u (u.lower (c ∷ text)))) p
            injection_patterns known (rw split (Occurs-search same_letter p before matched after m))
