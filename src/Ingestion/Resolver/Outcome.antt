-- ===== src/Ingestion/Resolver/Outcome.antt =====
-- What a resolution returns, and what becomes of the entities of a batch.
use jenezis.Prelude.{
  ℕ, zero, suc, ◌≡◌, refl, sym, ◌∙◌, Bool, true, false, List, [], ◌∷◌, Option, none, some,
  Bool-cases, subst, Bool-cases, Text, Text_eq, All, text_eq_iff, elem, keys, ◌==◌,
  elem-keys-insert, In, In-append_left, In-append_right, ok, >>=-eq-ok, ◌⊎◌, inl, inr, arith, all,
  nat_eq, ◌||◌, if◌then◌else◌,
}
use jenezis.Ingestion.Records.{Entity}
use jenezis.Ingestion.Resolver.{
  NodeAlias, Match, Unresolved, Resolution, resolved, unresolved, Services, find_by_exact_match,
  find_by_vector_similarity, by_similarity, by_exact_match, search, add_item, add_mapping,
  resolve_entity, resolve_from, resolve_all,
}

module _ {E S : Type 0} (services : Services E S) (aliases : List NodeAlias) where
  -- An item that stands for the entity in the list of the unresolved.
  abbrev pub Queued : Entity → List (Unresolved S) → Type 0
  Queued entity items =
      (item : Unresolved S) × In item items × (item.name ≡ entity.name) × (item.type ≡ entity.type)

  abbrev pub Handled : List (Text × ℕ) × List (Unresolved S) → Entity → Type 0
  Handled out entity = (elem entity.id (keys out.0) ≡ true) ⊎ Queued entity out.1

  -- An unresolved item carries the name and the type that were asked for.
  abbrev pub IsAbout : Text → Text → Resolution S → Type 0
  IsAbout name type (resolved _ _) = Unit
  IsAbout name type (unresolved item) = (item.name ≡ name) × (item.type ≡ type)

  by_similarity-IsAbout :
      (name type : Text) (m : Option (Match S))
      → IsAbout name type (by_similarity services aliases name type m)
  by_similarity-IsAbout name type none = (refl, refl)
  by_similarity-IsAbout name type (some m) =
      elim (Bool-cases (services.is_confident m.similarity)) [
        | inl yes' ↦ rw yes' tt
        | inr no' ↦ rw no' (refl, refl)
      ]

  search-IsAbout :
      (name type : Text) (r : Resolution S)
      → search services aliases name type ≡ ok r
      → IsAbout name type r
  search-IsAbout name type r h =
      let (m, _, g) = >>=-eq-ok (find_by_vector_similarity services aliases name) _ h in
      let e : by_similarity services aliases name type m ≡ r = cc g in
      subst (IsAbout name type) e (by_similarity-IsAbout name type m)

  by_exact_match-IsAbout :
      (name type : Text) (o : Option ℕ) (r : Resolution S)
      → by_exact_match services aliases name type o ≡ ok r
      → IsAbout name type r
  by_exact_match-IsAbout name type none r h = search-IsAbout name type r h
  by_exact_match-IsAbout name type (some zero) r h = search-IsAbout name type r h
  by_exact_match-IsAbout name type (some (suc k)) r h =
      let e : resolved (suc k) name ≡ r = cc h in subst (IsAbout name type) e tt

  resolve_entity-IsAbout :
      (name type : Text) (r : Resolution S)
      → resolve_entity services aliases name type ≡ ok r
      → IsAbout name type r
  unfolding resolve_entity
  resolve_entity-IsAbout name type =
      by_exact_match-IsAbout name type (find_by_exact_match services aliases name)

  elem-add_mapping :
      (i id : Text) (r : Resolution S) (m : List (Text × ℕ))
      → elem i (keys m) ≡ true
      → elem i (keys (add_mapping services aliases id r m)) ≡ true
  elem-add_mapping i id (resolved n _) m h = ground (arith, elem-keys-insert id i n m, h)
  elem-add_mapping i id (unresolved item) m h = h

  In-add_item :
      (item : Unresolved S) (r : Resolution S) (items : List (Unresolved S))
      → In item items
      → In item (add_item services aliases r items)
  In-add_item item (resolved n _) items h = h
  In-add_item item (unresolved new) items h = In-append_left item items (new ∷ []) h

  add-Handled :
      (entity : Entity) (r : Resolution S) (m : List (Text × ℕ)) (items : List (Unresolved S))
      → IsAbout entity.name entity.type r
      → Handled
          (add_mapping services aliases entity.id r m, add_item services aliases r items)
          entity
  add-Handled entity (resolved n _) m items h =
      inl
        (ground (arith, elem-keys-insert entity.id entity.id n m, text_eq_iff entity.id entity.id))
  add-Handled entity (unresolved item) m items h =
      inr (item, In-append_right item items (item ∷ []) (inl refl), h.0, h.1)

  resolve_from-Handled :
      (m : List (Text × ℕ)) (items : List (Unresolved S)) (entities : List Entity)
      → (out : List (Text × ℕ) × List (Unresolved S))
      → resolve_from services aliases m items entities ≡ ok out
      → ((i : Text) → elem i (keys m) ≡ true → elem i (keys out.0) ≡ true)
        × ((item : Unresolved S) → In item items → In item out.1)
        × ((entity : Entity) → In entity entities → Handled out entity)
  unfolding resolve_from
  resolve_from-Handled m items [] out h =
      let e : (m, items) ≡ out = cc h in
      (
        λ i k. subst (λ o. elem i (keys o.0) ≡ true) e k,
        λ item k. subst (λ o. In item o.1) e k,
        λ entity k. elim k [ ],
      )
  resolve_from-Handled m items (entity ∷ entities) out h =
      let (r, f, g) = >>=-eq-ok (resolve_entity services aliases entity.name entity.type) _ h in
      let (kept, queued, handled) =
        resolve_from-Handled (add_mapping services aliases entity.id r m)
          (add_item services aliases r items) entities out g in
      (
        λ i k. kept i (elem-add_mapping i entity.id r m k),
        λ item k. queued item (In-add_item item r items k),
        λ e k. elim k [
          | inl same ↦
              rw same
                (elim (add-Handled entity r m items
                  (resolve_entity-IsAbout entity.name entity.type r f)) [
                    | inl l ↦ inl (kept entity.id l)
                    | inr (item, n, about, kind) ↦ inr (item, queued item n, about, kind)
                  ])
          | inr rest ↦ handled e rest
        ],
      )

  -- Where the resolution of a batch returns, each entity of it has a canonical number under its
  -- identifier, or an item with its name and type is in the list of the unresolved.
  pub resolve_all-Handled :
      (entities : List Entity) (out : List (Text × ℕ) × List (Unresolved S))
      → resolve_all services aliases entities ≡ ok out
      → (entity : Entity) → In entity entities
      → Handled out entity
  unfolding resolve_all
  resolve_all-Handled entities out h =
      let (_, _, handled) = resolve_from-Handled [] [] entities out h in handled

-- No character that has a meaning in a pattern: `%`, `_` and the backslash.
abbrev pub is_plain : ℕ → Bool
is_plain c = if nat_eq c 37 || nat_eq c 95 || nat_eq c 92 then false else true

-- What PostgreSQL documents of `ILIKE` for a pattern without wildcards.
abbrev pub PlainIlike : (Text → Text → Bool) → (Text → Text) → Type 0
PlainIlike ilike lower =
    (alias pattern : Text)
    → all is_plain pattern ≡ true
    → ilike alias pattern ≡ (lower alias == lower pattern)

-- Where the comparison is as documented, and the name has none of `%`, `_` and the backslash, there is
-- a match with the node of an alias that differs from the name at most in case, or there is none, and
-- every alias differs from it in more.
pub find_by_exact_match-plain :
    {E S : Type 0} (services : Services E S) (aliases : List NodeAlias) (lower : Text → Text)
    → PlainIlike services.ilike lower
    → (name : Text) → all is_plain name ≡ true
    → ((a : NodeAlias) × In a aliases
        × (find_by_exact_match services aliases name ≡ some a.canonical_node_id)
        × (lower a.alias ≡ lower name))
      ⊎ (find_by_exact_match services aliases name ≡ none)
        × All (λ a. ¬ (lower a.alias ≡ lower name)) aliases
unfolding find_by_exact_match
find_by_exact_match-plain services [] lower doc name plain = inr (refl, tt)
find_by_exact_match-plain services (a ∷ aliases) lower doc name plain =
    let same = doc a.alias name plain in
    let iff = text_eq_iff (lower a.alias) (lower name) in
    elim (Bool-cases (services.ilike a.alias name)) [
      | inl yes' ↦ rw (find_by_exact_match, yes') (inl (a, inl refl, refl, iff.0 (sym same ∙ yes')))
      | inr no' ↦
          rw (find_by_exact_match, no')
            (elim (find_by_exact_match-plain services aliases lower doc name plain) [
              | inl (b, m, e, f) ↦ inl (b, inr m, e, f)
              | inr (missed, others) ↦ inr (missed, ((λ p. cc (same, no', iff.1 p)), others))
            ])
    ]
