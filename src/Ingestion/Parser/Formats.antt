-- ===== src/Ingestion/Parser/Formats.antt =====
-- Which files are parsed.
use jenezis.Prelude.{
  ◌≡◌, ◌≢◌, refl, sym, ap, subst, ◌∙◌, ◌⊎◌, inl, inr, true, false, ◌||◌, Bool-cases, List, [], ◌∷◌,
  ◌++◌, is_empty, elem, Option-cases, Text, Text_eq, text_eq, Result, ok, raise, value_error,
  runtime_error, arith,
}
use jenezis.App.Filename.{rsplit_dot}
use jenezis.App.Filename.Limit.{rsplit_dot_eq}
use jenezis.Ingestion.Parser.{
  suffix, supported_formats, could_not_parse, read_content, parse_document,
}

-- A suffix that is not empty stands at the end, behind a stem.
suffix-eq :
    (filename : Text)
    → (suffix filename ≡ [])
      ⊎ (stem : Text) × (ext : Text) × (filename ≡ stem ++ b'.' ∷ ext)
        × (suffix filename ≡ b'.' ∷ ext)
        × (is_empty stem ≡ false)
unfolding suffix
suffix-eq filename = elim (Option-cases (rsplit_dot filename)) [
  | inl undotted ↦ inl (rw (suffix, undotted) refl)
  | inr ((stem, ext), split) ↦ elim (Bool-cases (is_empty stem || is_empty ext)) [
    | inl bare ↦ inl (rw (suffix, split, bare) refl)
    | inr full ↦ inr (
      stem,
      ext,
      rsplit_dot_eq filename stem ext split,
      rw (suffix, split, full) refl,
      ground arith,
    )
  ]
]

could_not_parse_cases :
    (m : Result Text)
    → ((text : Text) × (could_not_parse m ≡ ok text)) ⊎ (could_not_parse m ≡ raise runtime_error)
could_not_parse_cases (ok text) = inl (text, refl)
could_not_parse_cases (raise error) = inr refl

module _ {B : Type 0} (lower : Text → Text) (lower_nil : lower [] ≡ [])
    (decode : List B → Result Text) (convert : Text → List B → Result Text) (content : List B)
    (filename : Text) where
  -- A stem, a dot and an extension that is one of the four in lower case.
  abbrev pub IsSupported : Type 0
  IsSupported =
      (stem : Text) × (ext : Text) × (filename ≡ stem ++ b'.' ∷ ext)
      × (is_empty stem ≡ false)
      × (elem (lower (b'.' ∷ ext)) supported_formats ≡ true)

  supported : elem (lower (suffix filename)) supported_formats ≡ true → IsSupported
  supported h = elim (suffix-eq filename) [
    | inl bare ↦
        absurd
          (no_format (subst (λ t. elem t supported_formats ≡ true) (ap lower bare ∙ lower_nil) h))
    | inr (stem, ext, split, same, full) ↦
        (stem, ext, split, full, subst (λ t. elem (lower t) supported_formats ≡ true) same h)
  ]
    where
      no_format : elem (let e : Text = [] in e) supported_formats ≢ true
      no_format h' = unfold text_eq in cc h'

  could_not_parse-read :
      elem (lower (suffix filename)) supported_formats ≡ true
      → parse_document lower decode convert content filename
        ≡ could_not_parse (read_content lower decode convert (lower (suffix filename)) content)
  unfolding parse_document
  could_not_parse-read h = rw (parse_document, h) refl

  -- A file with another name than a stem, a dot and one of the four extensions is refused with
  -- ValueError, and then nothing is decoded or converted; of the others whatever goes wrong is a
  -- RuntimeError.
  pub parse_document_cases :
      (IsSupported
        × (((text : Text) × (parse_document lower decode convert content filename ≡ ok text))
            ⊎ (parse_document lower decode convert content filename ≡ raise runtime_error)))
      ⊎ (parse_document lower decode convert content filename ≡ raise value_error)
  unfolding parse_document
  parse_document_cases = elim (Bool-cases (elem (lower (suffix filename)) supported_formats)) [
    | inl format ↦ inl (
      supported format,
      subst (λ m. ((text : Text) × (m ≡ ok text)) ⊎ (m ≡ raise runtime_error))
          (sym (could_not_parse-read format)) (could_not_parse_cases _),
    )
    | inr other ↦ inr (rw (parse_document, other) refl)
  ]
