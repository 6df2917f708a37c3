-- ===== src/App/Filename/Collapse.antt =====
-- What the replacement of repeated marks leaves.
use jenezis.Prelude.{
  ℕ, ◌<◌, ◌≡◌, ◌≢◌, ◌⊎◌, inl, inr, refl, Bool, true, false, ◌&&◌, [], ◌∷◌, All, arith, nat_eq_iff,
  length, Bool-cases, Text, Text_eq, codes,
}
use jenezis.App.Filename.{is_mark, starts_marked, collapse}

module _ (P : ℕ → Type 0) where
  pub collapse-All : P b'_' → (inside : Bool) (s : Text) → All P s → All P (collapse inside s)
  unfolding collapse
  collapse-All under inside [] h = tt
  collapse-All under inside (c ∷ s) h =
      let rest = collapse-All under (is_mark c) s h.1 in
      elim (Bool-cases (is_mark c)) [
        | inr plain ↦ rw plain (h.0, rw plain at rest)
        | inl mark ↦ split inside mark (rw mark at rest)
      ]
    where
      split :
          (inside : Bool)
          → is_mark c ≡ true
          → All P (collapse true s)
          → All P (collapse inside (c ∷ s))
      split true mark rest = rw (mark, collapse) rest
      split false mark rest = elim (Bool-cases (starts_marked s)) [
        | inl more ↦ rw (mark, more, collapse) (under, rest)
        | inr last ↦ rw (mark, last, collapse) (h.0, rest)
      ]

-- No two of the marks `_` and `.` stand side by side.
abbrev pub HasSingleMarks : Text → Type 0
HasSingleMarks [] = Unit
HasSingleMarks (c ∷ s) = ((is_mark c && starts_marked s) ≡ false) × HasSingleMarks s

starts-collapse : (s : Text) → starts_marked (collapse true s) ≡ false
unfolding collapse
starts-collapse [] = refl
starts-collapse (c ∷ s) = elim (Bool-cases (is_mark c)) [
  | inl mark ↦ rw mark (starts-collapse s)
  | inr plain ↦ rw plain plain
]

pub collapse-HasSingleMarks : (inside : Bool) (s : Text) → HasSingleMarks (collapse inside s)
unfolding collapse
collapse-HasSingleMarks inside [] = tt
collapse-HasSingleMarks inside (c ∷ s) =
    split inside (collapse-HasSingleMarks (is_mark c) s) (Bool-cases (is_mark c))
  where
    split :
        (inside : Bool)
        → HasSingleMarks (collapse (is_mark c) s)
        → (is_mark c ≡ true) ⊎ (is_mark c ≡ false)
        → HasSingleMarks (collapse inside (c ∷ s))
    split inside rest (inr plain) = rw plain (rw plain, rw plain at rest)
    split true rest (inl mark) = rw mark (rw mark at rest)
    split false rest (inl mark) =
        let rest' : HasSingleMarks (collapse true s) = rw mark at rest in
        rw mark (ground (arith, starts-collapse s), rest')

pub length-collapse : (s : Text) → s ≢ [] → 0 < length (collapse false s)
unfolding collapse
length-collapse [] h = absurd (h refl)
length-collapse (c ∷ s) h = ground arith

-- Only the text `.` collapses to `.`.
collapse_empty : (s : Text) → collapse true s ≡ [] → starts_marked s ≡ false → s ≡ []
unfolding collapse
collapse_empty [] h n = refl
collapse_empty (c ∷ s) h n = ground arith

pub collapse_dot : (s : Text) → collapse false s ≡ codes "." → s ≡ codes "."
unfolding collapse
collapse_dot [] h = cc
collapse_dot (c ∷ s) h = ground (arith, collapse_empty s, nat_eq_iff c b'_', nat_eq_iff c b'.')
