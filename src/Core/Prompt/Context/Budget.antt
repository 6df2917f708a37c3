-- ===== src/Core/Prompt/Context/Budget.antt =====
-- How much text goes into the context.
use jenezis.Prelude.{
  ℕ, ◌+◌, ◌-◌, ◌≤◌, ◌<◌, ◌≡◌, refl, List, [], ◌∷◌, length, length-append, length-take, take, ltb,
  is_empty, Text, codes, arith, if◌then◌else◌,
}
use jenezis.Core.Unicode.{Unicode}
use jenezis.Core.Prompt.Sanitize.{sanitize_for_prompt}
use jenezis.Core.Prompt.Context.{ContextDoc, Part, get_or, fit, collect}

-- The characters of text in the parts, which is what `total_length` counts.
abbrev pub size : List Part → ℕ
size [] = 0
size (p ∷ ps) = length p.text + size ps

length-fit :
    (remaining : ℕ) (s : Text)
    → length (fit remaining s) ≡ (if ltb remaining (length s) then remaining + 3 else length s)
unfolding fit
length-fit remaining s =
    ground (arith, length-append (take remaining s) (codes "..."), length-take remaining s)

fit_whole : (remaining : ℕ) (s : Text) → length s ≤ remaining → fit remaining s ≡ s
unfolding fit
fit_whole remaining s h = ground arith

module _ (u : Unicode) where
  -- The parts of all documents that have a text, each with its whole sanitized text.
  pub whole : ℕ → List ContextDoc → List Part
  whole i [] = []
  whole i (doc ∷ docs) =
      let text = get_or [] doc.text in
      let rest = whole (i + 1) docs in
      if is_empty text
      then rest
      else record { index = i; doc = doc; text = sanitize_for_prompt u text } ∷ rest

module _ (u : Unicode) (max : ℕ) where
  -- Where the characters counted so far are at most the maximal length and three, they are with
  -- those of the parts that follow: only the one text that is cut ends in three dots more.
  pub collect-size :
      (i total : ℕ) (docs : List ContextDoc)
      → total ≤ max + 3
      → total + size (collect u max i total docs) ≤ max + 3
  unfolding collect
  collect-size i total [] h = omega arith
  collect-size i total (doc ∷ docs) h =
      let s = sanitize_for_prompt u (get_or [] doc.text) in
      ground (
        arith,
        length-fit (max - total) s,
        collect-size (i + 1) total docs,
        collect-size (i + 1) (total + length (fit (max - total) s)) docs,
      )

  -- Where the sanitized texts are shorter than the maximal length, none is cut and none is left
  -- out.
  pub collect-whole :
      (i total : ℕ) (docs : List ContextDoc)
      → total + size (whole u i docs) < max
      → collect u max i total docs ≡ whole u i docs
  unfolding collect whole
  collect-whole i total [] h = refl
  collect-whole i total (doc ∷ docs) h =
      let s = sanitize_for_prompt u (get_or [] doc.text) in
      ground (
        arith,
        fit_whole (max - total) s,
        collect-whole (i + 1) total docs,
        collect-whole (i + 1) (total + length s) docs,
      )
