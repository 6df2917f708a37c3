-- ===== src/Core/Prompt/Regex/Language.antt =====
-- The matcher finds the texts of the language of a pattern.
use jenezis.Prelude.{
  ℕ, Bool, true, not, ◌||◌, ◌≡◌, refl, sym, ap, subst, ◌∙◌, inl, inr, List, [], ◌∷◌, ◌++◌,
  append_assoc, is_empty, In, In-append, In-append_left, In-append_right, Bool-cases, Text,
  is_space, arith,
}
use jenezis.Core.Prompt.Regex.{
  Pattern, empty, char, space, spaces, both, either, maybe, skip_spaces, skip_one, each, rests,
  search,
}

In-each :
    (f : Text → List Text) (rest : Text) (texts : List Text)
    → In rest (each f texts)
    → (mid : Text) × In mid texts × In rest (f mid)
In-each f rest [] h = elim h [ ]
In-each f rest (s ∷ texts) h = elim (In-append rest (f s) (each f texts) h) [
  | inl here ↦ (s, inl refl, here)
  | inr later ↦ let (mid, m, r) = In-each f rest texts later in (mid, inr m, r)
]

each_of :
    (f : Text → List Text) (rest mid : Text) (texts : List Text)
    → In mid texts
    → In rest (f mid)
    → In rest (each f texts)
each_of f rest mid [] m r = elim m [ ]
each_of f rest mid (s ∷ texts) (inl same) r =
    In-append_left rest (f s) _ (subst (λ t. In rest (f t)) same r)
each_of f rest mid (s ∷ texts) (inr later) r =
    In-append_right rest (f s) _ (each_of f rest mid texts later r)

module _ (same_letter : ℕ → ℕ → Bool) where
  -- The language of a pattern, by its constructors.
  pub data Matches : Pattern → Text → Type 0 where
    empty_matches : Matches empty []
    char_matches : {c d : ℕ} → same_letter c d ≡ true → Matches (char c) (d ∷ [])
    space_matches : {d : ℕ} → is_space d ≡ true → Matches space (d ∷ [])
    no_spaces : Matches spaces []
    more_spaces : {d : ℕ} {s : Text} → is_space d ≡ true → Matches spaces s → Matches spaces (d ∷ s)
    both_match :
        {p q : Pattern} {s t : Text} → Matches p s → Matches q t → Matches (both p q) (s ++ t)
    first_matches : {p q : Pattern} {s : Text} → Matches p s → Matches (either p q) s
    second_matches : {p q : Pattern} {s : Text} → Matches q s → Matches (either p q) s
    is_there : {p : Pattern} {s : Text} → Matches p s → Matches (maybe p) s
    is_missing : {p : Pattern} → Matches (maybe p) []

  -- The text is a match of the pattern, and then the rest.
  abbrev Splits : Pattern → Text → Text → Type 0
  Splits p text rest = (s : Text) × (text ≡ s ++ rest) × Matches p s

  spaces_sound : (text rest : Text) → In rest (skip_spaces text) → Splits spaces text rest
  spaces_sound [] rest (inl e) = ([], sym e, no_spaces)
  spaces_sound [] rest (inr h) = elim h [ ]
  spaces_sound (c ∷ s) rest (inl e) = ([], sym e, no_spaces)
  spaces_sound (c ∷ s) rest (inr h) = elim (Bool-cases (is_space c)) [
    | inl blank ↦
        let (t, split, m) = spaces_sound s rest (rw blank at h) in
        (c ∷ t, ap (◌∷◌ c) split, more_spaces blank m)
    | inr other ↦ let h' : ⊥ = rw other at h in absurd h'
  ]

  In-single : (rest s : Text) → In rest (s ∷ []) → rest ≡ s
  In-single rest s (inl e) = e
  In-single rest s (inr none') = elim none' [ ]

  one_sound :
      (p : ℕ → Bool) (text rest : Text)
      → In rest (skip_one p text)
      → (d : ℕ) × (text ≡ d ∷ rest) × (p d ≡ true)
  one_sound p [] rest h = elim h [ ]
  one_sound p (c ∷ s) rest h = elim (Bool-cases (p c)) [
    | inl good ↦ let e : rest ≡ s = In-single rest s (rw good at h) in (c, ap (◌∷◌ c) (sym e), good)
    | inr bad ↦ let h' : ⊥ = rw bad at h in absurd h'
  ]

  rests_sound :
      (p : Pattern) (text rest : Text) → In rest (rests same_letter p text) → Splits p text rest
  unfolding rests
  rests_sound empty text rest (inl e) = ([], sym e, empty_matches)
  rests_sound empty text rest (inr h) = elim h [ ]
  rests_sound (char c) text rest h =
      let (d, split, same) = one_sound (same_letter c) text rest h in
      (d ∷ [], split, char_matches same)
  rests_sound space text rest h =
      let (d, split, blank) = one_sound is_space text rest h in (d ∷ [], split, space_matches blank)
  rests_sound spaces text rest h = spaces_sound text rest h
  rests_sound (both p q) text rest h =
      let (mid, m, r) = In-each (rests same_letter q) rest (rests same_letter p text) h in
      let (s, split, matched) = rests_sound p text mid m in
      let (t, split', matched') = rests_sound q mid rest r in
      (
        s ++ t,
        split ∙ ap (λ x. s ++ x) split' ∙ sym (append_assoc s t rest),
        both_match matched matched',
      )
  rests_sound (either p q) text rest h =
      elim (In-append rest (rests same_letter p text) (rests same_letter q text) h) [
        | inl here ↦ let (s, split, m) = rests_sound p text rest here in (s, split, first_matches m)
        | inr there ↦
            let (s, split, m) = rests_sound q text rest there in (s, split, second_matches m)
      ]
  rests_sound (maybe p) text rest h =
      elim (In-append rest (rests same_letter p text) (text ∷ []) h) [
        | inl here ↦ let (s, split, m) = rests_sound p text rest here in (s, split, is_there m)
        | inr (inl e) ↦ ([], sym e, is_missing)
        | inr (inr none') ↦ absurd none'
      ]

  rests_complete :
      {p : Pattern} {s : Text} (rest : Text)
      → Matches p s
      → In rest (rests same_letter p (s ++ rest))
  unfolding rests
  rests_complete rest empty_matches = inl refl
  rests_complete rest (char_matches same) = rw same (inl refl)
  rests_complete rest (space_matches blank) = rw blank (inl refl)
  rests_complete [] no_spaces = inl refl
  rests_complete (c ∷ rest) no_spaces = inl refl
  rests_complete rest (more_spaces blank m) = inr (rw blank (rests_complete rest m))
  rests_complete rest (both_match {p} {q} {s} {t} m m') = rw (append_assoc s t rest) (
      each_of (rests same_letter q) rest (t ++ rest) (rests same_letter p (s ++ (t ++ rest)))
        (rests_complete (t ++ rest) m) (rests_complete rest m'))
  rests_complete rest (first_matches {p} {q} {s} m) =
      In-append_left rest _ (rests same_letter q (s ++ rest)) (rests_complete rest m)
  rests_complete rest (second_matches {p} {q} {s} m) =
      In-append_right rest (rests same_letter p (s ++ rest)) _ (rests_complete rest m)
  rests_complete rest (is_there m) = In-append_left rest _ _ (rests_complete rest m)
  rests_complete rest (is_missing {p}) =
      In-append_right rest (rests same_letter p rest) _ (inl refl)

  -- A text of the language stands somewhere in the text.
  abbrev pub Occurs : Pattern → Text → Type 0
  Occurs p text =
      (before : Text) × (matched : Text) × (after : Text) × (text ≡ before ++ (matched ++ after))
      × Matches p matched

  found_rest : (texts : List Text) → not (is_empty texts) ≡ true → (rest : Text) × In rest texts
  found_rest [] h = cc
  found_rest (s ∷ texts) h = (s, inl refl)

  not_empty : (rest : Text) (texts : List Text) → In rest texts → not (is_empty texts) ≡ true
  not_empty rest [] h = elim h [ ]
  not_empty rest (s ∷ texts) h = refl

  here-Occurs :
      (p : Pattern) (text : Text) → not (is_empty (rests same_letter p text)) ≡ true → Occurs p text
  here-Occurs p text h =
      let (rest, r) = found_rest (rests same_letter p text) h in
      let (s, split, m) = rests_sound p text rest r in ([], s, rest, split, m)

  pub search-Occurs : (p : Pattern) (text : Text) → search same_letter p text ≡ true → Occurs p text
  unfolding search
  search-Occurs p [] h = here-Occurs p [] h
  search-Occurs p (c ∷ s) h = elim (Bool-cases (not (is_empty (rests same_letter p (c ∷ s))))) [
    | inl here ↦ here-Occurs p (c ∷ s) here
    | inr elsewhere ↦
        let (before, matched, after, split, m) = search-Occurs p s (rw elsewhere at h) in
        (c ∷ before, matched, after, ap (◌∷◌ c) split, m)
  ]

  pub Occurs-search :
      (p : Pattern) (before matched after : Text)
      → Matches p matched
      → search same_letter p (before ++ (matched ++ after)) ≡ true
  unfolding search
  Occurs-search p [] matched after m = start (matched ++ after) (rests_complete after m)
    where
      start : (text : Text) → In after (rests same_letter p text) → search same_letter p text ≡ true
      start [] r = not_empty after _ r
      start (c ∷ s) r = rw (not_empty after (rests same_letter p (c ∷ s)) r) refl
  Occurs-search p (c ∷ before) matched after m =
      or_true _ _ (Occurs-search p before matched after m)
    where
      or_true : (a b : Bool) → b ≡ true → (a || b) ≡ true
      or_true a b h = ground arith
