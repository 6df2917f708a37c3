-- ===== src/Core/Prompt/Context.antt =====
-- `sanitize_context_for_generation` of jenezis/core/prompt_security.py.
pub mod Budget
use jenezis.Prelude.{
  ℕ, zero, suc, ◌+◌, ◌-◌, ◌/◌, ◌%◌, Bool, List, [], ◌∷◌, ◌++◌, map, length, take, ltb, leb,
  is_empty, Option, none, some, Text, codes, nat_eq, if◌then◌else◌,
}
use jenezis.Core.Unicode.{Unicode}
use jenezis.Core.Prompt.Sanitize.{sanitize_for_prompt}

-- A retrieved document; the identifiers are texts as an f-string writes them.
pub record ContextDoc : Type 0 where
  pub text : Option Text
  pub document_id : Option Text
  pub chunk_id : Option Text

-- An entry of `context_parts` before it is formatted: its index, its document and its text.
pub record Part : Type 0 where
  pub index : ℕ
  pub doc : ContextDoc
  pub text : Text

abbrev pub get_or : Text → Option Text → Text
get_or d none = d
get_or d (some t) = t

-- The decimal digits of a number, as `str` writes them; `fuel` bounds their count.
unfoldable pub decimal : ℕ → ℕ → Text → Text
decimal zero n rest = rest
decimal (suc fuel) n rest =
    let digit = b'0' + n % 10 in
    let more = decimal fuel (n / 10) (digit ∷ rest) in
    if nat_eq (n / 10) 0 then digit ∷ rest else more

-- The truncation of one sanitized text.
unfoldable pub fit : ℕ → Text → Text
fit remaining sanitized_text =
    if ltb remaining (length sanitized_text)
    then take remaining sanitized_text ++ codes "..."
    else sanitized_text

-- The f-string of a part.
unfoldable pub render : Part → Text
unfolding decimal
render p =
    codes "--- Context Document "
    ++ (decimal (p.index + 2) (p.index + 1) []
        ++ (codes " (Source: doc-"
            ++ (get_or (codes "N/A") p.doc.document_id
                ++ (codes "/chunk-"
                    ++ (get_or (codes "N/A") p.doc.chunk_id
                        ++ (codes ") ---" ++ (10 ∷ p.text ++ (10 ∷ []))))))))

-- `"\n".join`
unfoldable pub join_lines : List Text → Text
join_lines [] = []
join_lines (t ∷ []) = t
join_lines (t ∷ t' ∷ ts) = t ++ (10 ∷ join_lines (t' ∷ ts))

module _ (u : Unicode) (max_context_length : ℕ) where
  -- The loop over the documents.
  unfoldable pub collect : ℕ → ℕ → List ContextDoc → List Part
  collect i total_length [] = []
  collect i total_length (doc ∷ docs) =
      let text = get_or [] doc.text in
      let sanitized_text = fit (max_context_length - total_length) (sanitize_for_prompt u text) in
      let skipped = collect (i + 1) total_length docs in
      let rest = collect (i + 1) (total_length + length sanitized_text) docs in
      if leb max_context_length total_length
      then []
      else if is_empty text
      then skipped
      else record { index = i; doc = doc; text = sanitized_text } ∷ rest

  unfoldable pub sanitize_context_for_generation : List ContextDoc → Text
  unfolding collect fit render join_lines
  sanitize_context_for_generation docs = join_lines (map render (collect 0 0 docs))
