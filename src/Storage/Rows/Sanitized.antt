-- ===== src/Storage/Rows/Sanitized.antt =====
-- What `_sanitize_document` guarantees.
use jenezis.Prelude.{
  ◌≡◌, ◌≢◌, Bool, false, Bool-cases, List, [], ◌∷◌, All, Text, Text_eq, text_eq, insert, keys,
  Distinct, Distinct-insert, delete_char, ok, raise, value_error, >>=-eq-ok, inl, inr, arith, subst,
}
use jenezis.Storage.Rows.{
  Value, none_value, text, number, other, Key, text_key, other_key, get, is_none, is_skipped,
  strip_nulls, sanitize_items, check_required, sanitize_document,
}

module _ {O : Type 0} (is_invalid : O → Bool) where
  -- No null byte in a text, and no float that is NaN or infinite.
  abbrev pub IsClean : Value O → Type 0
  IsClean none_value = Unit
  IsClean (text s) = All (λ c. c ≢ 0) s
  IsClean (number n) = Unit
  IsClean (other x) = is_invalid x ≡ false

  delete_char-All : (s : Text) → All (λ c. c ≢ 0) (delete_char 0 s)
  delete_char-All [] = tt
  delete_char-All (c ∷ s) = ground (arith, delete_char-All s)

  strip_nulls-IsClean :
      (v : Value O) → is_skipped is_invalid v ≡ false → IsClean (strip_nulls is_invalid v)
  strip_nulls-IsClean none_value h = tt
  strip_nulls-IsClean (text s) h = delete_char-All s
  strip_nulls-IsClean (number n) h = tt
  strip_nulls-IsClean (other x) h = h

  insert-All :
      (k : Text) (v : Value O) (m : List (Text × Value O))
      → IsClean v
      → All (λ p. IsClean p.1) m
      → All (λ p. IsClean p.1) (insert k v m)
  insert-All k v [] c h = (c, tt)
  insert-All k v ((j, w) ∷ m) c h = elim (Bool-cases (text_eq k j)) [
    | inl same ↦ rw same (c, h.1)
    | inr new ↦ rw new (h.0, insert-All k v m c h.1)
  ]

  sanitize_items-IsClean :
      (m : List (Text × Value O)) (doc : List (Key × Value O))
      → Distinct (keys m)
      → All (λ p. IsClean p.1) m
      → Distinct (keys (sanitize_items is_invalid m doc))
        × All (λ p. IsClean p.1) (sanitize_items is_invalid m doc)
  unfolding sanitize_items
  sanitize_items-IsClean m [] d h = (d, h)
  sanitize_items-IsClean m ((other_key, v) ∷ doc) d h = sanitize_items-IsClean m doc d h
  sanitize_items-IsClean m ((text_key k, v) ∷ doc) d h =
      elim (Bool-cases (is_skipped is_invalid v)) [
        | inl skip ↦ rw skip (sanitize_items-IsClean m doc d h)
        | inr keep ↦ rw keep (
            sanitize_items-IsClean (insert k (strip_nulls is_invalid v) m) doc
              (Distinct-insert k (strip_nulls is_invalid v) m d)
              (insert-All k (strip_nulls is_invalid v) m (strip_nulls-IsClean v keep) h))
      ]

  check_required-get :
      (ks : List Text) (m : List (Text × Value O))
      → check_required is_invalid ks m ≡ ok tt
      → All (λ k. get k m ≢ none_value) ks
  unfolding check_required
  check_required-get [] m h = tt
  check_required-get (k ∷ ks) m h = elim (Bool-cases (is_none (get k m))) [
    | inl missing ↦
        let bad : raise value_error ≡ ok tt = rw (check_required, missing) at h in absurd (cc bad)
    | inr present ↦ (
      λ e. let t = subst (λ v. is_none v ≡ false) e present in absurd (cc t),
      check_required-get ks m (rw (check_required, present) at h),
    )
  ]

  -- Where the function returns, the dict has no key twice, no text with a null byte, no float that
  -- is NaN or infinite, and a value other than None under each required key.
  pub sanitize_document-IsClean :
      (required_keys : List Text) (doc : List (Key × Value O)) (row : List (Text × Value O))
      → sanitize_document is_invalid required_keys doc ≡ ok row
      → Distinct (keys row)
        × All (λ p. IsClean p.1) row
        × All (λ k. get k row ≢ none_value) required_keys
  unfolding sanitize_document
  sanitize_document-IsClean ks doc row h =
      let m = sanitize_items is_invalid [] doc in
      let (u, f, g) = >>=-eq-ok (check_required is_invalid ks m) _ h in
      let e : m ≡ row = cc g in
      let (d, c) = sanitize_items-IsClean [] doc tt tt in
      subst (λ r. Distinct (keys r) × All (λ p. IsClean p.1) r × All (λ k. get k r ≢ none_value) ks)
        e (d, c, check_required-get ks m (cc f))
