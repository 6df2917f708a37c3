-- ===== src/Core/Prompt/Escape.antt =====
-- The two rewritings of `sanitize_for_prompt`: code fences and XML-like tags.
pub mod Fences
pub mod Tags
use jenezis.Prelude.{
  ℕ, ◌≡◌, Bool, true, false, ◌&&◌, ◌||◌, List, [], ◌∷◌, nat_eq, Text, if◌then◌else◌,
}

abbrev pub backtick : ℕ
backtick = 96

-- `s.replace("```", "` ` `")`: from the left, without overlap.
unfoldable pub escape_fences : Text → Text
escape_fences (a ∷ b ∷ c ∷ s) =
    let fenced = backtick ∷ 32 ∷ backtick ∷ 32 ∷ backtick ∷ escape_fences s in
    let kept = a ∷ escape_fences (b ∷ c ∷ s) in
    if nat_eq a backtick && (nat_eq b backtick && nat_eq c backtick) then fenced else kept
escape_fences s = s

module _ (is_word : ℕ → Bool) where
  -- `\w*>`, and whether the name has begun.
  unfoldable pub name_ahead : Bool → Text → Bool
  name_ahead begun [] = false
  name_ahead begun (c ∷ s) =
      let rest = name_ahead true s in if is_word c then rest else begun && nat_eq c b'>'

  -- `(/?)(\w+)>`: what follows the `<` of a match.
  unfoldable pub tag_ahead : Text → Bool
  unfolding name_ahead
  tag_ahead [] = false
  tag_ahead (c ∷ s) = if nat_eq c b'/' then name_ahead false s else name_ahead false (c ∷ s)

  -- Whether the character after `c` stands inside a match.
  unfoldable pub next_mode : Bool → ℕ → Text → Bool
  next_mode inside c s =
      if nat_eq c b'<' && tag_ahead s
      then true
      else if inside && nat_eq c b'>'
      then false
      else inside

  -- `re.sub(r'<(/?)(\w+)>', r'〈\1\2〉', s)`. A match has no other `<` and ends at its first `>`, so
  -- one pass that knows whether it stands inside a match rewrites the same characters.
  unfoldable pub escape_tags : Bool → Text → Text
  unfolding tag_ahead next_mode
  escape_tags inside [] = []
  escape_tags inside (c ∷ s) =
      (if nat_eq c b'<' && tag_ahead s
        then 0x3008
        else if inside && nat_eq c b'>'
        then 0x3009
        else c)
      ∷ escape_tags (next_mode inside c s) s
