-- ===== src/Prelude/Chars.antt =====
-- Classes of code points, and `str.strip`, as Python has them.
use Prim.Native.Nat.{ℕ}
use mathlib.Core.Path.{◌≡◌, refl, ap}
use mathlib.Core.Bool.{Bool, true, false, ◌&&◌, ◌||◌}
use mathlib.Core.Logic.{◌⊎◌, ◌≢◌, inl, inr}
use mathlib.Core.List.{[], ◌∷◌, ◌++◌}
use native.Mathlib.Omega.{arith}
use jenezis.Prelude.Tests.{nat_eq, leb, if◌then◌else◌, Bool-cases}
use jenezis.Prelude.Lists.{All, is_empty}
use jenezis.Prelude.Texts.{Text}

unfoldable pub is_upper : ℕ → Bool
is_upper c = leb b'A' c && leb c b'Z'

unfoldable pub is_lower : ℕ → Bool
is_lower c = leb b'a' c && leb c b'z'

unfoldable pub is_digit : ℕ → Bool
is_digit c = leb b'0' c && leb c b'9'

-- `[A-Za-z]`
unfoldable pub is_letter : ℕ → Bool
unfolding is_upper is_lower
is_letter c = is_upper c || is_lower c

-- `[A-Za-z0-9_]`
unfoldable pub is_identifier_char : ℕ → Bool
unfolding is_letter is_digit
is_identifier_char c = is_letter c || (is_digit c || nat_eq c b'_')

-- `str.isspace` of one code point.
unfoldable pub is_space : ℕ → Bool
is_space c =
    leb 9 c && leb c 13
    || (leb 28 c && leb c 32
        || (nat_eq c 133
            || (nat_eq c 160
                || (nat_eq c 5760
                    || (leb 8192 c && leb c 8202
                        || (nat_eq c 8232
                            || (nat_eq c 8233
                                || (nat_eq c 8239 || (nat_eq c 8287 || nat_eq c 12288)))))))))

unfoldable pub lstrip : Text → Text
lstrip [] = []
lstrip (c ∷ s) = if is_space c then lstrip s else c ∷ s

unfoldable pub rstrip : Text → Text
rstrip [] = []
rstrip (c ∷ s) = let r = rstrip s in if is_space c && is_empty r then [] else c ∷ r

unfoldable pub strip : Text → Text
unfolding lstrip rstrip
strip s = rstrip (lstrip s)

module _ (P : ℕ → Type 0) where
  abbrev OrSpace : ℕ → Type 0
  OrSpace c = P c ⊎ (is_space c ≡ true)

  All-OrSpace : (s : Text) → All P s → All OrSpace s
  All-OrSpace [] h = tt
  All-OrSpace (c ∷ s) h = (inl h.0, All-OrSpace s h.1)

  lstrip-All : (s : Text) → All OrSpace (lstrip s) → All OrSpace s
  unfolding lstrip
  lstrip-All [] h = tt
  lstrip-All (c ∷ s) h = elim (Bool-cases (is_space c)) [
    | inl space ↦ (inr space, lstrip-All s (rw space at h))
    | inr other ↦ rw other at h
  ]

  All-of_is_empty : (s : Text) → is_empty s ≡ true → All P s
  All-of_is_empty [] h = tt
  All-of_is_empty (c ∷ s) h = cc

  rstrip-All : (s : Text) → All P (rstrip s) → All OrSpace s
  unfolding rstrip
  rstrip-All [] h = tt
  rstrip-All (c ∷ s) h = elim (Bool-cases (is_space c && is_empty (rstrip s))) [
    | inl gone ↦ (inr (ground arith), rstrip-All s (All-of_is_empty (rstrip s) (ground arith)))
    | inr kept ↦ let h' : P c × All P (rstrip s) = rw kept at h in (inl h'.0, rstrip-All s h'.1)
  ]

  -- A code point that `strip` takes away is a space.
  pub strip-All : (s : Text) → All P (strip s) → All (λ c. P c ⊎ (is_space c ≡ true)) s
  unfolding strip
  strip-All s h = lstrip-All s (rstrip-All (lstrip s) h)

snoc-ne-nil : (w : Text) (c : ℕ) → ¬ ([] ≡ w ++ c ∷ [])
snoc-ne-nil [] c h = cc
snoc-ne-nil (d ∷ w) c h = cc

-- What `rstrip` leaves does not end in a space.
rstrip_last : (s w : Text) (c : ℕ) → rstrip s ≡ w ++ c ∷ [] → is_space c ≡ false
unfolding rstrip
rstrip_last [] w c h = absurd (snoc-ne-nil w c h)
rstrip_last (d ∷ s) w c h = elim (Bool-cases (is_space d && is_empty (rstrip s))) [
  | inl gone ↦ absurd (snoc-ne-nil w c (rw gone at h))
  | inr kept ↦ last (λ v. rstrip_last s v c) w (rw kept at h) kept
]
  where
    last :
        ((v : Text) → rstrip s ≡ v ++ c ∷ [] → is_space c ≡ false)
        → (v : Text) → d ∷ rstrip s ≡ v ++ c ∷ []
        → (is_space d && is_empty (rstrip s)) ≡ false
        → is_space c ≡ false
    last rec [] e k = ground arith
    last rec (x ∷ v) e k = rec v (cc)

pub strip_last : (s w : Text) (c : ℕ) → strip s ≡ w ++ c ∷ [] → is_space c ≡ false
unfolding strip
strip_last s w c h = rstrip_last (lstrip s) w c h

-- A text with no space stays as it is.
rstrip_none : (s : Text) → All (λ c. is_space c ≡ false) s → rstrip s ≡ s
unfolding rstrip
rstrip_none [] h = refl
rstrip_none (c ∷ s) h = rw h.0 (ap (◌∷◌ c) (rstrip_none s h.1))

pub strip_none : (s : Text) → All (λ c. is_space c ≡ false) s → strip s ≡ s
unfolding strip lstrip
strip_none [] h = rstrip_none [] h
strip_none (c ∷ s) h = rw h.0 (rstrip_none (c ∷ s) h)

-- An identifier character is no space, and no character that the label check names.
pub identifier_char-ne :
    (c : ℕ) → is_identifier_char c ≡ true → (is_space c ≡ false) × (c ≢ 0) × (leb 36 c ≡ true)
unfolding is_identifier_char is_space
identifier_char-ne c h = ground arith
