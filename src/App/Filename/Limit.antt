-- ===== src/App/Filename/Limit.antt =====
-- What the limit of 255 characters leaves.
use jenezis.Prelude.{
  ℕ, zero, suc, ◌+◌, ◌-◌, ◌≤◌, ◌<◌, ◌≡◌, ◌≢◌, ◌⊎◌, inl, inr, refl, ap, ap₂, ◌∙◌, [], ◌∷◌, ◌++◌, All,
  All-append, arith, nat_eq_iff, leb, leb→le, ltb, length, length-append, length-take, take, Option,
  none, some, Option-cases, Bool-cases, Text, Text_eq,
}
use jenezis.App.Filename.{rsplit_dot, cut_name, limit_length}

module _ (P : ℕ → Type 0) where
  take-All : (n : ℕ) (s : Text) → All P s → All P (take n s)
  take-All zero s h = tt
  take-All (suc n) [] h = tt
  take-All (suc n) (c ∷ s) h = (h.0, take-All n s h.1)

  All-unappend : (s t : Text) → All P (s ++ t) → All P s × All P t
  All-unappend [] t h = (tt, h)
  All-unappend (c ∷ s) t h = let (hs, ht) = All-unappend s t h.1 in ((h.0, hs), ht)

-- `rsplit` cuts the text at its last dot.
pub rsplit_dot_eq : (s name ext : Text) → rsplit_dot s ≡ some (name, ext) → s ≡ name ++ b'.' ∷ ext
unfolding rsplit_dot
rsplit_dot_eq [] name ext e = cc
rsplit_dot_eq (c ∷ s) name ext e = elim (Option-cases (rsplit_dot s)) [
  | inl none_left ↦ ground (arith, nat_eq_iff c b'.')
  | inr (p, found) ↦
      let tail : s ≡ p.0 ++ b'.' ∷ p.1 = rsplit_dot_eq s p.0 p.1 found in
      let here : ◌≡◌ {A = Option (Text × Text)} (some (c ∷ p.0, p.1)) (some (name, ext)) =
        ground arith in
      let e1 : c ∷ p.0 ≡ name = cc in
      let e2 : p.1 ≡ ext = cc in ap (◌∷◌ c) tail ∙ ap₂ (λ n x. n ++ b'.' ∷ x) e1 e2
]

-- The four ways to limit the length.
pub limit_cases :
    (s : Text)
    → (length s ≤ 255) × (limit_length s ≡ s)
      ⊎ (255 < length s) × (limit_length s ≡ take 255 s)
      ⊎ ((name : Text) × (255 < length s)
          × (s ≡ name ++ b'.' ∷ [])
          × (limit_length s ≡ take 255 name))
      ⊎ ((name : Text) × (ext : Text) × (255 < length s)
          × (s ≡ name ++ b'.' ∷ ext)
          × (ext ≢ [])
          × (limit_length s ≡ cut_name name ext ++ b'.' ∷ ext))
unfolding limit_length
limit_cases s = elim (Bool-cases (ltb 255 (length s))) [
  | inr short ↦ inl (ground arith, ground arith)
  | inl long ↦ elim (Option-cases (rsplit_dot s)) [
    | inl undotted ↦ inr (inl (ground arith, ground arith))
    | inr ((name, []), found) ↦
        inr (inr (inl (name, ground arith, rsplit_dot_eq s name [] found, ground arith)))
    | inr ((name, x ∷ xs), found) ↦ inr (
        inr (
          inr (
            name,
            x ∷ xs,
            ground arith,
            rsplit_dot_eq s name (x ∷ xs) found,
            λ e. cc,
            ground arith,
          )))
  ]
]

module _ (P : ℕ → Type 0) where
  cut_All : (name ext : Text) → All P name → All P (cut_name name ext)
  unfolding cut_name
  cut_All name ext h = elim (Bool-cases (leb (length ext + 1) 255)) [
    | inl fits ↦ rw fits (take-All P (255 - length ext - 1) name h)
    | inr long ↦ rw long (take-All P (length name - (length ext + 1 - 255)) name h)
  ]

  pub limit_All : P b'.' → (s : Text) → All P s → All P (limit_length s)
  limit_All dot s h = elim (limit_cases s) [
    | inl (_, e) ↦ rw e h
    | inr (inl (_, e)) ↦ rw e (take-All P 255 s h)
    | inr (inr (inl (name, _, split, e))) ↦
        rw e (take-All P 255 name (All-unappend P name (b'.' ∷ []) (rw split at h)).0)
    | inr (inr (inr (name, ext, _, split, _, e))) ↦
        let (hn, he) = All-unappend P name (b'.' ∷ ext) (rw split at h) in
        rw e (All-append P (cut_name name ext) (b'.' ∷ ext) (cut_All name ext hn) he)
  ]

pub length-limit :
    (s : Text)
    → (limit_length s ≡ s) × (length s ≤ 255)
      ⊎ (length (limit_length s) ≡ 255)
      ⊎ ((name : Text) × (ext : Text) × (limit_length s ≡ name ++ b'.' ∷ ext) × (254 < length ext))
unfolding cut_name
length-limit s = elim (limit_cases s) [
  | inl (short, e) ↦ inl (e, short)
  | inr (inl (long, e)) ↦ inr (inl (rw e (omega (arith, length-take 255 s))))
  | inr (inr (inl (name, long, split, e))) ↦ inr (
      inl (
        rw e
          (omega (arith, ap length split, length-append name (b'.' ∷ []), length-take 255 name))))
  | inr (inr (inr (name, ext, long, split, given, e))) ↦
      elim (Bool-cases (leb (length ext + 1) 255)) [
        | inl fits ↦ inr (
            inl (
              rw (e, fits)
                (omega (
                  arith,
                  leb→le (length ext + 1) 255 fits,
                  ap length split,
                  length-append name (b'.' ∷ ext),
                  length-append (take (255 - length ext - 1) name) (b'.' ∷ ext),
                  length-take (255 - length ext - 1) name,
                ))))
        | inr over ↦ inr (inr (cut_name name ext, ext, e, ground arith))
      ]
]

limit_dotted :
    (name ext : Text)
    → rsplit_dot (name ++ b'.' ∷ ext) ≡ some (name, ext)
    → 255 < length (name ++ b'.' ∷ ext)
    → 254 < length ext
    → limit_length (name ++ b'.' ∷ ext) ≡ cut_name name ext ++ b'.' ∷ ext
unfolding limit_length
limit_dotted name [] h whole long = absurd (omega arith)
limit_dotted name (x ∷ ext) h whole long = ground arith

rsplit_dot-none : (ext : Text) → All (λ c. c ≢ b'.') ext → rsplit_dot ext ≡ none
unfolding rsplit_dot
rsplit_dot-none [] h = refl
rsplit_dot-none (c ∷ ext) h = ground (arith, rsplit_dot-none ext h.1, h.0)

rsplit_dot_last :
    (name ext : Text) → All (λ c. c ≢ b'.') ext → rsplit_dot (name ++ b'.' ∷ ext) ≡ some (name, ext)
unfolding rsplit_dot
rsplit_dot_last [] ext h = rw (rsplit_dot-none ext h)
rsplit_dot_last (c ∷ name) ext h = rw (rsplit_dot_last name ext h)

-- Where the last dot stands before more than 254 characters, the limit of 255 does not hold for
-- what comes out.
pub length-limit_length_over :
    (name ext : Text)
    → All (λ c. c ≢ b'.') ext
    → 254 < length ext
    → 255 < length (limit_length (name ++ b'.' ∷ ext))
length-limit_length_over name ext h long =
    let s = name ++ b'.' ∷ ext in
    let whole : 255 < length s = omega (arith, length-append name (b'.' ∷ ext)) in
    over (cut_name name ext) ext long
      (limit_dotted name ext (rsplit_dot_last name ext h) whole long)
  where
    over :
        (n ext : Text)
        → 254 < length ext
        → limit_length (name ++ b'.' ∷ ext) ≡ n ++ b'.' ∷ ext
        → 255 < length (limit_length (name ++ b'.' ∷ ext))
    over n ext l e = rw e (omega (arith, length-append n (b'.' ∷ ext)))
