-- ===== src/Prelude/Texts.antt =====
-- Texts as lists of code points, the way Python's `str` is a sequence of code points.
use Prim.Native.Nat.{ℕ}
use Prim.Native.Char.{code}
use Prim.Native.String.{String}
use mathlib.Core.Path.{◌≡◌, refl}
use mathlib.Core.Logic.{◌↔◌, ◌≢◌, ◌⊎◌, inl, inr}
use mathlib.Core.Bool.{Bool, true, false, ◌&&◌, ◌||◌}
use mathlib.Core.List.{List, [], ◌∷◌}
use native.Mathlib.Omega.{arith}
use jenezis.Prelude.Tests.{nat_eq, nat_eq_iff, Eq, Bool-cases, if◌then◌else◌}
use jenezis.Prelude.Lists.{filter, is_empty, All}

abbrev pub Text : Type 0
Text = List ℕ

abbrev pub codes : String → Text
codes String.[] = []
codes (String.◌∷◌ c s) = code c ∷ codes s

unfoldable pub text_eq : Text → Text → Bool
text_eq [] [] = true
text_eq [] (d ∷ t) = false
text_eq (c ∷ s) [] = false
text_eq (c ∷ s) (d ∷ t) = nat_eq c d && text_eq s t

text_eq_refl : (s : Text) → text_eq s s ≡ true
unfolding text_eq
text_eq_refl [] = refl
text_eq_refl (c ∷ s) = ground (arith, text_eq_refl s)

text_eq_sound : (s t : Text) → text_eq s t ≡ true → s ≡ t
unfolding text_eq
text_eq_sound [] [] h = refl
text_eq_sound [] (d ∷ t) h = cc
text_eq_sound (c ∷ s) [] h = cc
text_eq_sound (c ∷ s) (d ∷ t) h = ground (arith, text_eq_sound s t)

pub text_eq_iff : (s t : Text) → (text_eq s t ≡ true) ↔ (s ≡ t)
text_eq_iff s t = (text_eq_sound s t, λ p. rw p (text_eq_refl t))

instance abbrev pub Text_eq : Eq Text
Text_eq = record { beq = text_eq; beq_iff = text_eq_iff }

-- `s.startswith(p)`.
unfoldable pub starts_with : Text → Text → Bool
starts_with [] s = true
starts_with (c ∷ p) [] = false
starts_with (c ∷ p) (d ∷ s) = nat_eq c d && starts_with p s

-- `p in s`.
unfoldable pub contains : Text → Text → Bool
unfolding starts_with
contains p [] = is_empty p
contains p (c ∷ s) = starts_with p (c ∷ s) || contains p s

-- `s.replace(c, "")` for one code point.
abbrev pub delete_char : ℕ → Text → Text
delete_char c s = filter (λ d. if nat_eq d c then false else true) s

-- A text that `s` does not contain begins nowhere in it.
pub contains_single : (c : ℕ) (s : Text) → contains (c ∷ []) s ≡ false → All (λ d. d ≢ c) s
unfolding contains starts_with
contains_single c [] h = tt
contains_single c (d ∷ s) h = (ground arith, contains_single c s (ground arith))

pub contains_none : (c : ℕ) (p s : Text) → All (λ d. d ≢ c) s → contains (c ∷ p) s ≡ false
unfolding contains starts_with
contains_none c p [] h = refl
contains_none c p (d ∷ s) h = ground (arith, contains_none c p s h.1, h.0)

pub delete_char_none : (c : ℕ) (s : Text) → All (λ d. d ≢ c) s → delete_char c s ≡ s
delete_char_none c [] h = refl
delete_char_none c (d ∷ s) h = ground (arith, delete_char_none c s h.1, h.0)

pub delete_char-All :
    (P : ℕ → Type 0) (c : ℕ) (s : Text) → All P (delete_char c s) → All (λ d. (d ≡ c) ⊎ P d) s
delete_char-All P c [] h = tt
delete_char-All P c (d ∷ s) h = elim (Bool-cases (nat_eq d c)) [
  | inl same ↦ (inl ((nat_eq_iff d c).0 same), delete_char-All P c s (rw same at h))
  | inr other ↦
      let h' : P d × All P (delete_char c s) = rw other at h in
      (inr h'.0, delete_char-All P c s h'.1)
]
