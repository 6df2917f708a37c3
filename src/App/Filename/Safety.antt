-- ===== src/App/Filename/Safety.antt =====
-- What a sanitized filename looks like.
use jenezis.Prelude.{
  ℕ, ◌≤◌, ◌<◌, ◌≡◌, ◌≢◌, ◌⊎◌, inl, inr, ap, subst, true, false, [], ◌∷◌, ◌++◌, All, All-map, arith,
  length, length-append, is_empty, Text, text_eq, text_eq_iff, Text_eq, codes, delete_char, ok,
}
use jenezis.Core.Unicode.{Unicode}
use jenezis.App.Filename.Collapse.{
  collapse-All, HasSingleMarks, collapse-HasSingleMarks, length-collapse, collapse_dot,
}
use jenezis.App.Filename.Limit.{limit_All, length-limit}
use jenezis.App.Filename.{
  basename, collapse, limit_length, is_safe, replace_unsafe, sanitize_filename,
}

-- What the code relies on from the class `\w`.
pub record Documented (u : Unicode) : Type 0 where
  pub underscore : u.is_word b'_' ≡ true
  pub slash : u.is_word b'/' ≡ false
  pub backslash : u.is_word 92 ≡ false
  pub null : u.is_word 0 ≡ false

replaced :
    (u : Unicode) → Documented u → (s : Text) → All (λ c. is_safe u c ≡ true) (replace_unsafe u s)
replaced u doc [] = tt
replaced u doc (c ∷ s) = (ground (arith, doc.underscore), replaced u doc s)

safe-ne :
    {u : Unicode}
    → Documented u
    → (c : ℕ) → is_safe u c ≡ true
    → (is_safe u c ≡ true) × (c ≢ b'/') × (c ≢ 92) × (c ≢ 0)
safe-ne {u} doc c h = (
  h,
  λ e. cc (ap (is_safe u) e, h, slash),
  λ e. cc (ap (is_safe u) e, h, backslash),
  λ e. cc (ap (is_safe u) e, h, null),
)
  where
    slash : is_safe u b'/' ≡ false
    slash = rw doc.slash

    backslash : is_safe u 92 ≡ false
    backslash = rw doc.backslash

    null : is_safe u 0 ≡ false
    null = rw doc.null

replace-ne_nil : (u : Unicode) (name : Text) → name ≢ [] → replace_unsafe u name ≢ []
replace-ne_nil u [] h = h
replace-ne_nil u (c ∷ s) h = λ e. cc

replace_dot : (u : Unicode) (name : Text) → replace_unsafe u name ≡ codes "." → name ≡ codes "."
replace_dot u [] h = cc
replace_dot u (c ∷ []) h = ground arith
replace_dot u (c ∷ d ∷ s) h = cc

body-ne_dots :
    (u : Unicode) (name : Text)
    → name ≢ []
    → name ≢ codes "."
    → (collapse false (replace_unsafe u name) ≢ [])
      × (collapse false (replace_unsafe u name) ≢ codes ".")
      × (collapse false (replace_unsafe u name) ≢ codes "..")
body-ne_dots u name given single = (
  λ e. absurd (
      omega (
        arith,
        ap length e,
        length-collapse (replace_unsafe u name) (replace-ne_nil u name given),
      )),
  λ e. single (replace_dot u name (collapse_dot (replace_unsafe u name) e)),
  λ e. cc (subst HasSingleMarks e (collapse-HasSingleMarks false (replace_unsafe u name))).0,
)

long-ne_dots : (f : Text) → 2 < length f → (f ≢ []) × (f ≢ codes ".") × (f ≢ codes "..")
long-ne_dots f h = (
  λ e. absurd (omega (arith, ap length e)),
  λ e. absurd (omega (arith, ap length e)),
  λ e. absurd (omega (arith, ap length e)),
)

module _ (u : Unicode) (unquote : Text → Text) where
  -- What an accepted name was made of.
  sanitized_from :
      (filename f : Text)
      → sanitize_filename u unquote filename ≡ ok f
      → (name : Text) × (name ≢ [])
        × (name ≢ codes ".")
        × (name ≢ codes "..")
        × (f ≡ limit_length (collapse false (replace_unsafe u name)))
  unfolding sanitize_filename
  sanitized_from filename f h =
      let name = basename (unquote (unquote (delete_char 0 filename))) in
      let given : is_empty name ≡ false = ground arith in
      let no_self : text_eq name (codes ".") ≡ false = ground arith in
      let no_parent : text_eq name (codes "..") ≡ false = ground arith in
      (
        name,
        λ e. cc (ap is_empty e),
        λ e. cc ((text_eq_iff name (codes ".")).1 e),
        λ e. cc ((text_eq_iff name (codes "..")).1 e),
        ground arith,
      )

  -- Where the underscore is a word character and the slash, the backslash and the null byte are
  -- none, a filename that is accepted has safe characters only: no slash, no backslash, no null
  -- byte.
  pub sanitize_filename-is_safe :
      Documented u
      → (filename f : Text) → sanitize_filename u unquote filename ≡ ok f
      → All (λ c. (is_safe u c ≡ true) × (c ≢ b'/') × (c ≢ 92) × (c ≢ 0)) f
  sanitize_filename-is_safe doc filename f h =
      let (name, _, _, _, e) = sanitized_from filename f h in
      let safe = λ (c : ℕ). is_safe u c ≡ true in
      rw e (
        All-map safe _ (safe-ne doc) (limit_length (collapse false (replace_unsafe u name))) (
          limit_All safe (ground arith) (collapse false (replace_unsafe u name)) (
            collapse-All safe (ground (arith, doc.underscore)) false (replace_unsafe u name)
              (replaced u doc name))))

  -- A filename that is accepted has at most 255 characters, unless what stands behind one of its
  -- dots has more than 254.
  pub length-sanitize_filename :
      (filename f : Text)
      → sanitize_filename u unquote filename ≡ ok f
      → (length f ≤ 255)
        ⊎ ((name : Text) × (ext : Text) × (f ≡ name ++ b'.' ∷ ext) × (254 < length ext))
  length-sanitize_filename filename f h =
      let (name, _, _, _, e) = sanitized_from filename f h in
      rw e (elim (length-limit (collapse false (replace_unsafe u name))) [
        | inl (same, short) ↦ inl (rw same short)
        | inr (inl full) ↦ inl (omega arith)
        | inr (inr over) ↦ inr over
      ])

  -- A filename that is accepted names neither nothing nor the directory itself nor its parent.
  pub sanitize_filename-ne_dots :
      (filename f : Text)
      → sanitize_filename u unquote filename ≡ ok f
      → (f ≢ []) × (f ≢ codes ".") × (f ≢ codes "..")
  sanitize_filename-ne_dots filename f h =
      let (name, given, single, parent, e) = sanitized_from filename f h in
      let body = collapse false (replace_unsafe u name) in
      rw e (elim (length-limit body) [
        | inl (same, _) ↦ rw same (body-ne_dots u name given single)
        | inr (inl full) ↦ long-ne_dots (limit_length body) (omega arith)
        | inr (inr (n, ext, split, long)) ↦
            long-ne_dots (limit_length body)
              (omega (arith, ap length split, length-append n (b'.' ∷ ext)))
      ])
