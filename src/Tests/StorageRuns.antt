-- ===== src/Tests/StorageRuns.antt =====
-- The tables of the metadata store, the labels and the costs on concrete inputs.
use jenezis.Prelude.{
  ℕ, ◌≡◌, ◌≢◌, ◌⊎◌, ◌↔◌, refl, Bool, true, List, [], ◌∷◌, ◌++◌, All, none, some, Text, codes,
  text_eq, ok, raise, value_error, invalid_transition, is_letter, is_identifier_char, is_space,
  strip, contains, starts_with,
}
use jenezis.Tests.Samples.{report}
use jenezis.Storage.Status.{pending, failed, validate_status_transition}
use jenezis.Storage.Metadata.{get_document_by_id, update_document_status, is_missing}
use jenezis.Storage.Metadata.Updates.{update_document_status-eq-raise}
use jenezis.Storage.Canonical.{CanonicalNode, get_or_create_canonical_node}
use jenezis.Storage.Canonical.Races.{Provides, get_or_create_canonical_node-Provides}
use jenezis.Storage.Identifiers.{validate_identifier, matches_pattern}
use jenezis.Storage.Identifiers.Matches.{IsIdentifier, newline, validate_identifier_iff}
use jenezis.Storage.Labels.{sanitize_label, type_filter, clean_label, is_dangerous}
use jenezis.Storage.Labels.Safety.{type_filter-quoted}
use jenezis.Storage.Costs.{Tiktoken}

update_document_status-eq-raise_example :
    ((update_document_status (report ∷ []) 1 failed none ≡ raise invalid_transition)
      ↔ (validate_status_transition pending failed ≡ raise invalid_transition))
    × ((update_document_status (report ∷ []) 1 failed none ≡ raise value_error) ↔ (
        (validate_status_transition pending failed ≡ ok tt)
        × (failed ≡ failed)
        × (is_missing none ≡ true)))
unfolding get_document_by_id
update_document_status-eq-raise_example =
    update_document_status-eq-raise (report ∷ []) 1 failed none report refl

abbrev ada : CanonicalNode ℕ
ada = record { id = 1; node_type = codes "Person"; name = codes "Ada"; embedding = 0 }

abbrev bob : CanonicalNode ℕ
bob = record { id = 2; node_type = codes "Person"; name = codes "Bob"; embedding = 0 }

get_or_create_canonical_node-Provides_example :
    (node : CanonicalNode ℕ) × (created : Bool) × (after : List (CanonicalNode ℕ))
    × (get_or_create_canonical_node (ada ∷ []) (bob ∷ []) 3 (codes "Bob") (codes "Person") 0
        ≡ ok (node, created, after))
    × Provides (ada ∷ []) (codes "Bob") node after
unfolding text_eq
get_or_create_canonical_node-Provides_example =
    get_or_create_canonical_node-Provides (ada ∷ []) (bob ∷ []) 3 (codes "Bob") (codes "Person") 0
      (refl, tt) (refl, (refl, tt))

abbrev broken_line : Text
broken_line = codes "Risk\n"

validate_identifier_iff_example :
    ((validate_identifier broken_line ≡ ok tt)
      ↔ (IsIdentifier broken_line ⊎ ((w : Text) × IsIdentifier w × (broken_line ≡ w ++ newline))))
    × ((validate_identifier broken_line ≡ raise value_error)
        ↔ ¬ (
            IsIdentifier broken_line
            ⊎ ((w : Text) × IsIdentifier w × (broken_line ≡ w ++ newline))))
validate_identifier_iff_example = validate_identifier_iff broken_line

abbrev clause : Text
clause = codes "WHERE node.type = 'Risk'"

type_filter-quoted_example :
    (clause ≡ [])
    ⊎ ((t : Text) × (some (codes "Risk") ≡ some t)
        × (clause ≡ codes "WHERE node.type = '" ++ (t ++ codes "'"))
        × All (λ c. (c ≢ 39) × (c ≢ 92) × (c ≢ 10)) t)
unfolding type_filter sanitize_label clean_label matches_pattern is_dangerous strip is_letter
    is_identifier_char is_space contains starts_with
type_filter-quoted_example = type_filter-quoted (some (codes "Risk")) clause refl

-- A token for each character.
abbrev characters : Tiktoken ℕ
characters = record { encoding_for_model = λ m. none; cl100k_base = λ t. t }
