-- ===== src/Core/Prompt/Schema/Types.antt =====
-- What the type names of a sanitized schema look like.
use jenezis.Prelude.{
  ℕ, zero, suc, is_space, ◌≤◌, ◌<◌, ◌≡◌, inl, inr, Bool, true, false, ◌||◌, List, [], ◌∷◌, map,
  filter, take, length, length-take, is_empty, All, Text, codes, texts, arith, Bool-cases, Json,
  obj, ok, >>=-eq-ok, if◌then◌else◌,
}
use jenezis.Core.Unicode.{Unicode}
use jenezis.Core.Prompt.Schema.{
  Sanitized, list_field, nonempty, clean_entity_type, clean_relation_type, sanitize_ontology_schema,
}

take-All : (P : ℕ → Type 0) (n : ℕ) (s : Text) → All P s → All P (take n s)
take-All P zero s h = tt
take-All P (suc n) [] h = tt
take-All P (suc n) (c ∷ s) h = (h.0, take-All P n s h.1)

filter-All : (p : ℕ → Bool) (s : Text) → All (λ c. p c ≡ true) (filter p s)
filter-All p [] = tt
filter-All p (c ∷ s) = elim (Bool-cases (p c)) [
  | inl kept ↦ rw kept (kept, filter-All p s)
  | inr gone ↦ rw gone (filter-All p s)
]

-- A name that may go into the prompt: 1 to 64 characters that pass the test.
pub record IsName (p : ℕ → Bool) (t : Text) : Type 0 where
  pub some_char : 0 < length t
  pub short : length t ≤ 64
  pub chars : All (λ c. p c ≡ true) t

nonempty-All :
    (p : ℕ → Bool) (clean : Text → Text)
    → ((t : Text) → (length (clean t) ≤ 64) × All (λ c. p c ≡ true) (clean t))
    → (ts : List Text) → All (IsName p) (nonempty (map clean ts))
nonempty-All p clean h [] = tt
nonempty-All p clean h (t ∷ ts) = elim (Bool-cases (is_empty (clean t))) [
  | inl empty ↦ rw empty (nonempty-All p clean h ts)
  | inr given ↦ rw given (
    record { some_char = positive (clean t) given; short = (h t).0; chars = (h t).1 },
    nonempty-All p clean h ts,
  )
]
  where
    positive : (s : Text) → is_empty s ≡ false → 0 < length s
    positive [] e = cc
    positive (c ∷ s) e = omega arith

module _ (u : Unicode) where
  -- `str.upper` keeps word characters so, and `_` is one.
  pub record Documented : Type 0 where
    pub underscore : u.is_word b'_' ≡ true
    pub upper_word :
        (s : Text) → All (λ c. u.is_word c ≡ true) s → All (λ c. u.is_word c ≡ true) (u.upper s)

  clean_entity_type_lem :
      (t : Text)
      → (length (clean_entity_type u t) ≤ 64)
        × All (λ c. (u.is_word c || is_space c) ≡ true) (clean_entity_type u t)
  unfolding clean_entity_type
  clean_entity_type_lem t = (
    omega (arith, length-take 64 (filter (λ c. u.is_word c || is_space c) t)),
    take-All _ 64 _ (filter-All (λ c. u.is_word c || is_space c) t),
  )

  underscored :
      Documented
      → (t : Text) → All (λ c. u.is_word c ≡ true) (map (λ c. if u.is_word c then c else b'_') t)
  underscored doc [] = tt
  underscored doc (c ∷ t) = (ground (arith, doc.underscore), underscored doc t)

  clean_relation_type_lem :
      Documented
      → (t : Text)
      → (length (clean_relation_type u t) ≤ 64)
        × All (λ c. u.is_word c ≡ true) (clean_relation_type u t)
  unfolding clean_relation_type
  clean_relation_type_lem doc t = (
    omega (arith, length-take 64 (u.upper (map (λ c. if u.is_word c then c else b'_') t))),
    take-All _ 64 _ (doc.upper_word _ (underscored doc t)),
  )

  -- Whatever the schema holds, the names that come out have 1 to 64 characters: word characters and
  -- spaces for an entity type, word characters only for a relation type.
  pub sanitize_ontology_schema-IsName :
      Documented
      → (schema : Json) (s : Sanitized) → sanitize_ontology_schema u schema ≡ ok s
      → All (IsName (λ c. u.is_word c || is_space c)) s.entity_types
        × All (IsName u.is_word) s.relation_types
  unfolding sanitize_ontology_schema
  sanitize_ontology_schema-IsName doc (obj fs) s h =
      let (es, _, h') = >>=-eq-ok (list_field (codes "entity_types") fs) _ h in
      let (rs, _, h'') = >>=-eq-ok (list_field (codes "relation_types") fs) _ h' in
      let entities = nonempty-All _ (clean_entity_type u) clean_entity_type_lem (texts es) in
      let relations =
        nonempty-All _ (clean_relation_type u) (clean_relation_type_lem doc) (texts rs) in
      (ground (arith, entities), ground (arith, relations))
  sanitize_ontology_schema-IsName doc _ s h = cc
