-- ===== src/Storage/Labels/Safety.antt =====
-- What a text that `sanitize_label` accepts looks like.
use jenezis.Prelude.{
  ℕ, ◌++◌, ◌≡◌, ◌≢◌, refl, ap, sym, ◌∙◌, ◌⊎◌, inl, inr, ◌≤◌, Bool, true, false, List, [], ◌∷◌, any,
  All, All-map, arith, length, is_empty, Text, is_identifier_char, is_space, contains,
  contains_single, contains_none, strip-All, strip_last, strip_none, delete_char, delete_char-All,
  delete_char_none, identifier_char-ne, Bool-cases, ok, >>=-eq-ok, subst, Option, none, some, codes,
}
use jenezis.Storage.Identifiers.{matches_pattern}
use jenezis.Storage.Identifiers.Matches.{IsIdentifier, matches_pattern_iff}
use jenezis.Storage.Labels.{
  max_label_length, dangerous_patterns, is_dangerous, clean_label, sanitize_label, type_filter,
}

-- The four checks that an accepted label passed.
record Passed (label cleaned : Text) : Type 0 where
  cleaned_eq : cleaned ≡ clean_label label
  short : length cleaned ≤ max_label_length
  matched : matches_pattern cleaned ≡ true
  harmless : is_dangerous label ≡ false

passed : (label cleaned : Text) → sanitize_label label ≡ ok cleaned → Passed label cleaned
unfolding sanitize_label
passed label cleaned h = ground arith

none_of_any {ℓ} :
    {A : Type ℓ} (p : A → Bool) (xs : List A) → any p xs ≡ false → All (λ x. p x ≡ false) xs
none_of_any p [] h = tt
none_of_any p (x ∷ xs) h = (ground arith, none_of_any p xs (ground arith))

All-zip :
    (P Q R : ℕ → Type 0) → ((c : ℕ) → P c → Q c → R c) → (s : Text) → All P s → All Q s → All R s
All-zip P Q R f [] hp hq = tt
All-zip P Q R f (c ∷ s) hp hq = (f c hp.0 hq.0, All-zip P Q R f s hp.1 hq.1)

-- An accepted label comes back as an identifier of at most 64 characters.
pub sanitize_label-IsIdentifier :
    (label cleaned : Text)
    → sanitize_label label ≡ ok cleaned
    → IsIdentifier cleaned × (length cleaned ≤ 64)
unfolding clean_label
sanitize_label-IsIdentifier label cleaned h =
    let checks = passed label cleaned h in
    (
      elim ((matches_pattern_iff cleaned).0 checks.matched) [
        | inl good ↦ good
        | inr (w, _, e) ↦
            absurd
              (newline_last (strip_last (delete_char 0 label) w 10 (sym checks.cleaned_eq ∙ e)))
      ],
      checks.short,
    )
  where
    newline_last : is_space 10 ≡ false → ⊥
    newline_last = unfold is_space in λ e. cc

-- A character of an accepted label, before it is cleaned: an identifier character, a null byte, or
-- a space that starts no new line.
abbrev pub IsTame : ℕ → Type 0
IsTame c = (c ≡ 0) ⊎ (is_identifier_char c ≡ true) ⊎ (is_space c ≡ true) × (c ≢ 10) × (c ≢ 13)

identifier_chars : (s : Text) → IsIdentifier s → All (λ c. is_identifier_char c ≡ true) s
unfolding is_identifier_char
identifier_chars [] h = tt
identifier_chars (c ∷ s) h = (rw h.0, h.1)

tame :
    (c : ℕ)
    → (c ≡ 0) ⊎ ((is_identifier_char c ≡ true) ⊎ (is_space c ≡ true))
    → (c ≢ 10) × (c ≢ 13)
    → IsTame c
tame c (inl zero') n = inl zero'
tame c (inr (inl good)) n = inr (inl good)
tame c (inr (inr space)) n = inr (inr (space, n.0, n.1))

-- An accepted label has only tame characters as it stands, since callers go on with the label that
-- they passed in and not with the cleaned one.
pub sanitize_label-IsTame :
    (label cleaned : Text) → sanitize_label label ≡ ok cleaned → All IsTame label
unfolding clean_label is_dangerous
sanitize_label-IsTame label cleaned h =
    let checks = passed label cleaned h in
    let absent = none_of_any (λ p. contains p label) dangerous_patterns checks.harmless in
    let good =
      strip-All (λ c. is_identifier_char c ≡ true) (delete_char 0 label)
        (subst (All (λ c. is_identifier_char c ≡ true)) checks.cleaned_eq
          (identifier_chars cleaned (sanitize_label-IsIdentifier label cleaned h).0)) in
    All-zip _ _ IsTame tame label (delete_char-All _ 0 label good) (
      All-zip _ _ (λ c. (c ≢ 10) × (c ≢ 13)) (λ c p q. (p, q)) label
        (contains_single 10 label absent.1.1.1.1.1.1.1.1.1.0)
        (contains_single 13 label absent.1.1.1.1.1.1.1.1.1.1.0))

tame-ne : (c : ℕ) → IsTame c → (c ≢ 39) × (c ≢ 92) × (c ≢ 10)
unfolding is_identifier_char is_space
tame-ne c h = ground arith

-- The clause that a search filters by is empty, or is `WHERE node.type = '…'` around the type that
-- was asked for, and that text has no quote, no backslash and no newline, so it ends where the
-- closing quote stands.
pub type_filter-quoted :
    (type : Option Text) (clause : Text)
    → type_filter type ≡ ok clause
    → (clause ≡ [])
      ⊎ ((t : Text) × (type ≡ some t)
          × (clause ≡ codes "WHERE node.type = '" ++ (t ++ codes "'"))
          × All (λ c. (c ≢ 39) × (c ≢ 92) × (c ≢ 10)) t)
unfolding type_filter
type_filter-quoted none clause h = inl (cc)
type_filter-quoted (some t) clause h = elim (Bool-cases (is_empty t)) [
  | inl empty ↦ inl (let h' : ok [] ≡ ok clause = rw empty at h in cc)
  | inr given ↦
      let (cleaned, checked, e) =
        >>=-eq-ok (sanitize_label t) (λ _. ok (codes "WHERE node.type = '" ++ (t ++ codes "'")))
          (rw given at h) in
      inr (t, refl, cc, All-map IsTame _ tame-ne t (sanitize_label-IsTame t cleaned checked))
]

absent_pattern :
    (s : Text)
    → IsIdentifier s
    → (c : ℕ) (p : Text) → is_identifier_char c ≡ false
    → contains (c ∷ p) s ≡ false
absent_pattern s i c p bad =
    contains_none c p s
      (All-map _ (λ d. d ≢ c) (λ d good e. cc (ap is_identifier_char e)) s (identifier_chars s i))

not_dangerous : (s : Text) → IsIdentifier s → is_dangerous s ≡ false
unfolding is_dangerous is_identifier_char
not_dangerous s i = rw (
  absent_pattern s i 96 [] refl,
  absent_pattern s i 39 [] refl,
  absent_pattern s i 34 [] refl,
  absent_pattern s i 93 [] refl,
  absent_pattern s i 91 [] refl,
  absent_pattern s i 41 [] refl,
  absent_pattern s i 40 [] refl,
  absent_pattern s i 59 [] refl,
  absent_pattern s i 47 (47 ∷ []) refl,
  absent_pattern s i 10 [] refl,
  absent_pattern s i 13 [] refl,
)

clean_identifier : (s : Text) → IsIdentifier s → clean_label s ≡ s
unfolding clean_label
clean_identifier s i =
    let chars = identifier_chars s i in
    rw (delete_char_none 0 s (All-map _ _ (λ c good. (identifier_char-ne c good).1) s chars))
      (strip_none s (All-map _ _ (λ c good. (identifier_char-ne c good).0) s chars))

-- A text that is an identifier of at most 64 characters is accepted and comes back unchanged, so
-- cleaning a cleaned label changes nothing.
pub sanitize_label_identifier :
    (s : Text) → IsIdentifier s → length s ≤ 64 → sanitize_label s ≡ ok s
unfolding sanitize_label
sanitize_label_identifier [] i short = absurd i
sanitize_label_identifier (c ∷ s) i short = ground (
  arith,
  clean_identifier (c ∷ s) i,
  not_dangerous (c ∷ s) i,
  (matches_pattern_iff (c ∷ s)).1 (inl i),
)
