-- ===== src/Ingestion/Validator/Laws.antt =====
-- What the validator lets through.
use jenezis.Prelude.{
  ◌≡◌, refl, ◌↔◌, Bool, true, false, List, [], ◌∷◌, filter, In, In-filter, filter-In, In-of_elem,
  elem_of_In, is_empty, arith, Text, Text_eq, Bool-cases, inl, inr, ap,
}
use jenezis.Ingestion.Records.{Entity, Relation}
use jenezis.Ingestion.Validator.{
  Validator, is_valid_entity, is_valid_relation, ids, validate_and_filter,
}

filter-filter {ℓ} : {A : Type ℓ} (p : A → Bool) (xs : List A) → filter p (filter p xs) ≡ filter p xs
filter-filter p [] = refl
filter-filter p (x ∷ xs) = elim (Bool-cases (p x)) [
  | inl kept ↦ rw (kept, kept) (ap (◌∷◌ x) (filter-filter p xs))
  | inr gone ↦ rw gone (filter-filter p xs)
]

is_valid_relation_iff :
    (v : Validator) (known : List Text) (r : Relation Text)
    → (is_valid_relation v known r ≡ true)
      ↔ (In r.type v.valid_relation_types × In r.source_id known × In r.target_id known)
is_valid_relation_iff v known r = (
  λ h. (
    In-of_elem r.type v.valid_relation_types (ground arith),
    In-of_elem r.source_id known (ground arith),
    In-of_elem r.target_id known (ground arith),
  ),
  λ (t, s, e). ground (
    arith,
    elem_of_In r.type v.valid_relation_types t,
    elem_of_In r.source_id known s,
    elem_of_In r.target_id known e,
  ),
)

module _ (v : Validator) (entities : List Entity) (relations : List (Relation Text)) where
  -- With a schema, the entities that are left are those whose type the schema names.
  pub validate_and_filter-entities :
      is_empty v.ontology_schema ≡ false
      → (e : Entity)
      → In e (validate_and_filter v entities relations).0
        ↔ (In e entities × In e.type v.valid_entity_types)
  unfolding validate_and_filter
  validate_and_filter-entities given e = rw given (
    λ m.
        let (there, typed) = In-filter (is_valid_entity v) e entities m in
        (there, In-of_elem e.type v.valid_entity_types typed),
    λ h. filter-In (is_valid_entity v) e entities h.0 (elem_of_In e.type v.valid_entity_types h.1),
  )

  -- With a schema, the relations that are left are those whose type the schema names and whose two
  -- ends are entities that are left.
  pub validate_and_filter-relations :
      is_empty v.ontology_schema ≡ false
      → (r : Relation Text)
      → In r (validate_and_filter v entities relations).1 ↔ (
          In r relations
          × In r.type v.valid_relation_types
          × In r.source_id (ids v (validate_and_filter v entities relations).0)
          × In r.target_id (ids v (validate_and_filter v entities relations).0))
  unfolding validate_and_filter
  validate_and_filter-relations given r =
      let known = ids v (filter (is_valid_entity v) entities) in
      rw given (
        λ m.
            let (there, kept) = In-filter (is_valid_relation v known) r relations m in
            let (typed, from, to) = (is_valid_relation_iff v known r).0 kept in
            (there, typed, from, to),
        λ (there, typed, from, to).
            filter-In (is_valid_relation v known) r relations there
              ((is_valid_relation_iff v known r).1 (typed, from, to)),
      )

  -- Validation with the validator's own output changes nothing.
  validate_and_filter_idem :
      validate_and_filter v
        (validate_and_filter v entities relations).0
        (validate_and_filter v entities relations).1
      ≡ validate_and_filter v entities relations
  unfolding validate_and_filter
  validate_and_filter_idem = elim (Bool-cases (is_empty v.ontology_schema)) [
    | inl none_given ↦ rw none_given
    | inr given ↦ rw given (simp filter-filter)
  ]
