-- ===== src/Core/Prompt/Escape/Tags.antt =====
-- After `escape_tags` no tag is left.
use jenezis.Prelude.{ℕ, ◌≡◌, Bool, true, false, ◌&&◌, [], ◌∷◌, arith, nat_eq, nat_eq_iff, Text}
use jenezis.Core.Prompt.Escape.{name_ahead, tag_ahead, next_mode, escape_tags}

-- No `<` of the text begins a tag.
abbrev pub HasNoTag : (ℕ → Bool) → Text → Type 0
HasNoTag is_word [] = Unit
HasNoTag is_word (c ∷ s) = (nat_eq c b'<' && tag_ahead is_word s ≡ false) × HasNoTag is_word s

first_tag : (ℕ → Bool) → Text → Bool
first_tag is_word [] = false
first_tag is_word (c ∷ s) = nat_eq c b'<' && tag_ahead is_word s

module _ (is_word : ℕ → Bool)
    (brackets : (is_word 0x3008 ≡ false)
      × (is_word 0x3009 ≡ false)
      × (is_word b'<' ≡ false)
      × (is_word b'>' ≡ false)) where
  -- A name that stands ahead of the output stood ahead of the input.
  name_ahead-escape :
      (begun inside : Bool) (s : Text)
      → name_ahead is_word begun (escape_tags is_word inside s) ≡ true
      → name_ahead is_word begun s ≡ true
  unfolding name_ahead escape_tags
  name_ahead-escape begun inside [] h = h
  name_ahead-escape begun inside (c ∷ s) h = ground (
    arith,
    nat_eq_iff c b'<',
    nat_eq_iff c b'>',
    name_ahead-escape true true s,
    name_ahead-escape true false s,
  )

  tag_ahead-escape :
      (inside : Bool) (s : Text)
      → tag_ahead is_word (escape_tags is_word inside s) ≡ true
      → tag_ahead is_word s ≡ true
  unfolding tag_ahead escape_tags
  tag_ahead-escape inside [] h = h
  tag_ahead-escape inside (c ∷ s) h = ground (
    arith,
    name_ahead-escape false true s,
    name_ahead-escape false false s,
    name_ahead-escape true true s,
    name_ahead-escape true false s,
  )

  first_tag-escape :
      (c : ℕ) (inside : Bool) (s : Text)
      → first_tag is_word (escape_tags is_word inside (c ∷ s)) ≡ false
  unfolding escape_tags first_tag
  first_tag-escape c inside s =
      ground (arith, tag_ahead-escape inside s, tag_ahead-escape true s, tag_ahead-escape false s)

  -- Whatever the text, no tag `<name>` or `</name>` is left in what `sanitize_for_prompt` returns
  -- from its last step.
  pub escape_tags-HasNoTag :
      (inside : Bool) (s : Text) → HasNoTag is_word (escape_tags is_word inside s)
  unfolding escape_tags first_tag
  escape_tags-HasNoTag inside [] = tt
  escape_tags-HasNoTag inside (c ∷ s) =
      (first_tag-escape c inside s, escape_tags-HasNoTag (next_mode is_word inside c s) s)
