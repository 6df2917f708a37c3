-- ===== src/Storage/Identifiers/Matches.antt =====
-- Which texts the identifier pattern accepts.
use jenezis.Prelude.{
  ℕ, ◌≡◌, refl, ◌↔◌, ◌⊎◌, inl, inr, true, false, ◌&&◌, is_empty, [], ◌∷◌, ◌++◌, All, arith, nat_eq,
  Text, is_letter, is_identifier_char, Bool-cases, ok, raise, value_error,
}
use jenezis.Storage.Identifiers.{match_rest, matches_pattern, validate_identifier}

abbrev pub IsIdentifierRest : Text → Type 0
IsIdentifierRest = All (λ c. is_identifier_char c ≡ true)

-- A letter, then letters, digits and underscores.
abbrev pub IsIdentifier : Text → Type 0
IsIdentifier [] = ⊥
IsIdentifier (c ∷ s) = (is_letter c ≡ true) × IsIdentifierRest s

abbrev pub newline : Text
newline = 10 ∷ []

only_newline : (c : ℕ) (s : Text) → (nat_eq c 10 && is_empty s) ≡ true → c ∷ s ≡ newline
only_newline c [] h = ground arith
only_newline c (d ∷ s) h = ground arith

match_rest_sound :
    (s : Text)
    → match_rest s ≡ true
    → IsIdentifierRest s ⊎ ((t : Text) × IsIdentifierRest t × (s ≡ t ++ newline))
unfolding match_rest
match_rest_sound [] h = inl tt
match_rest_sound (c ∷ s) h = elim (Bool-cases (is_identifier_char c)) [
  | inl good ↦ elim (match_rest_sound s (rw good at h)) [
    | inl all ↦ inl (good, all)
    | inr (t, all, e) ↦ inr (c ∷ t, (good, all), rw e)
  ]
  | inr bad ↦ inr ([], tt, only_newline c s (rw bad at h))
]

match_rest_complete : (s : Text) → IsIdentifierRest s → match_rest s ≡ true
unfolding match_rest
match_rest_complete [] h = refl
match_rest_complete (c ∷ s) h = rw h.0 (match_rest_complete s h.1)

match_rest-newline : (s : Text) → IsIdentifierRest s → match_rest (s ++ newline) ≡ true
unfolding match_rest is_identifier_char
match_rest-newline [] h = refl
match_rest-newline (c ∷ s) h = rw h.0 (match_rest-newline s h.1)

sound :
    (v : Text)
    → matches_pattern v ≡ true
    → IsIdentifier v ⊎ ((w : Text) × IsIdentifier w × (v ≡ w ++ newline))
unfolding matches_pattern
sound [] h = cc
sound (c ∷ s) h = elim (Bool-cases (is_letter c)) [
  | inl letter ↦ elim (match_rest_sound s (rw letter at h)) [
    | inl all ↦ inl (letter, all)
    | inr (t, all, e) ↦ inr (c ∷ t, (letter, all), rw e)
  ]
  | inr other ↦ cc (let h' : false ≡ true = rw other at h in h')
]

complete : (v : Text) → IsIdentifier v → matches_pattern v ≡ true
unfolding matches_pattern
complete [] h = absurd h
complete (c ∷ s) h = rw h.0 (match_rest_complete s h.1)

complete_newline : (w : Text) → IsIdentifier w → matches_pattern (w ++ newline) ≡ true
unfolding matches_pattern
complete_newline [] h = absurd h
complete_newline (c ∷ s) h = rw h.0 (match_rest-newline s h.1)

-- The pattern accepts the identifiers, the identifiers with one newline behind them, and no other
-- text.
pub matches_pattern_iff :
    (v : Text)
    → (matches_pattern v ≡ true)
      ↔ (IsIdentifier v ⊎ ((w : Text) × IsIdentifier w × (v ≡ w ++ newline)))
matches_pattern_iff v = (sound v, go)
  where
    go :
        IsIdentifier v ⊎ ((w : Text) × IsIdentifier w × (v ≡ w ++ newline))
        → matches_pattern v ≡ true
    go (inl h) = complete v h
    go (inr (w, h, e)) = rw e (complete_newline w h)

-- `_validate_identifier` returns on the identifiers and on an identifier with one newline behind
-- it, and raises ValueError on every other text.
pub validate_identifier_iff :
    (v : Text)
    → ((validate_identifier v ≡ ok tt)
        ↔ (IsIdentifier v ⊎ ((w : Text) × IsIdentifier w × (v ≡ w ++ newline))))
      × ((validate_identifier v ≡ raise value_error)
          ↔ ¬ (IsIdentifier v ⊎ ((w : Text) × IsIdentifier w × (v ≡ w ++ newline))))
unfolding validate_identifier
validate_identifier_iff v = elim (Bool-cases (matches_pattern v)) [
  | inl accepted ↦ (
    (λ _. (matches_pattern_iff v).0 accepted, λ _. rw accepted),
    (
      λ h. absurd (cc (let h' : ok tt ≡ raise value_error = rw accepted at h in h')),
      λ n. absurd (n ((matches_pattern_iff v).0 accepted)),
    ),
  )
  | inr refused ↦ (
    (
      λ h. cc (let h' : raise value_error ≡ ok tt = rw refused at h in h'),
      λ i. cc ((matches_pattern_iff v).1 i),
    ),
    (λ _ i. cc ((matches_pattern_iff v).1 i, refused), λ n. rw refused),
  )
]
