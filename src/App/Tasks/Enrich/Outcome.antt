-- ===== src/App/Tasks/Enrich/Outcome.antt =====
-- How an enrichment ends for a pending item: the item's status, and what is learnt.
use jenezis.Prelude.{
  ℕ, ◌≡◌, >>=-eq-ok, refl, sym, ap, subst, ◌∙◌, true, false, Bool-cases, inl, inr, ◌⊎◌, List, [],
  ◌∷◌, ◌++◌, map, elem, Option, none, some, Text, Text_eq, Result, ok, raise, nat_eq, ℕ_eq, ◌==◌,
}
use jenezis.Storage.Canonical.{get_or_create_canonical_node}
use jenezis.Ingestion.Embedder.{embed_batch}
use jenezis.Ingestion.Resolver.{NodeAlias}
use jenezis.App.Tasks.Enrich.{
  EnrichmentStatus, EnrichmentItem, pending, processing, completed, failed, find_item,
  set_item_status, Store, Services, add_alias, first_embedding, learn, start, finish,
  enrich_unresolved_entity,
}

pub find_item-same :
    (i : ℕ) (q : EnrichmentItem) (queue : List EnrichmentItem)
    → nat_eq q.id i ≡ true
    → find_item i (q ∷ queue) ≡ some q
unfolding find_item
find_item-same i q queue same = rw same refl

pub find_item-other :
    (i : ℕ) (q : EnrichmentItem) (queue : List EnrichmentItem)
    → nat_eq q.id i ≡ false
    → find_item i (q ∷ queue) ≡ find_item i queue
unfolding find_item
find_item-other i q queue other = rw other refl

set_item_status-same :
    (i : ℕ) (s : EnrichmentStatus) (q : EnrichmentItem) (queue : List EnrichmentItem)
    → nat_eq q.id i ≡ true
    → set_item_status i s (q ∷ queue) ≡ record q { status = s } ∷ set_item_status i s queue
unfolding set_item_status
set_item_status-same i s q queue same = rw same refl

set_item_status-other :
    (i : ℕ) (s : EnrichmentStatus) (q : EnrichmentItem) (queue : List EnrichmentItem)
    → nat_eq q.id i ≡ false
    → set_item_status i s (q ∷ queue) ≡ q ∷ set_item_status i s queue
unfolding set_item_status
set_item_status-other i s q queue other = rw other refl

restatus : EnrichmentStatus → Option EnrichmentItem → Option EnrichmentItem
restatus s none = none
restatus s (some item) = some (record item { status = s })

find_item-none : (i : ℕ) (item : EnrichmentItem) → find_item i [] ≡ some item → ⊥
unfolding find_item
find_item-none i item f = cc f

-- An item that is found is found again with its new status.
find_item-set_item_status :
    (i : ℕ) (s : EnrichmentStatus) (queue : List EnrichmentItem) (item : EnrichmentItem)
    → find_item i queue ≡ some item
    → find_item i (set_item_status i s queue) ≡ some (record item { status = s })
unfolding restatus
find_item-set_item_status i s [] item f = absurd (find_item-none i item f)
find_item-set_item_status i s (q ∷ queue) item f = elim (Bool-cases (nat_eq q.id i)) [
  | inl same ↦
      ap (find_item i) (set_item_status-same i s q queue same)
      ∙ find_item-same i (record q { status = s }) (set_item_status i s queue) same
      ∙ ap (restatus s) (sym (find_item-same i q queue same) ∙ f)
  | inr other ↦
      ap (find_item i) (set_item_status-other i s q queue other)
      ∙ find_item-other i q (set_item_status i s queue) other
      ∙ find_item-set_item_status i s queue item (sym (find_item-other i q queue other) ∙ f)
]

elem-last :
    (name : Text) (n : ℕ) (aliases : List NodeAlias)
    → elem name
        (map (λ a. a.alias) (aliases ++ record { alias = name; canonical_node_id = n } ∷ []))
      ≡ true
elem-last name n [] = rw ((Text_eq.beq_iff name name).1 refl) refl
elem-last name n (a ∷ aliases) = elim (Bool-cases (name == a.alias)) [
  | inl same ↦ rw same refl
  | inr other ↦ rw other (elem-last name n aliases)
]

elem-add_alias :
    (name : Text) (n : ℕ) (aliases : List NodeAlias)
    → elem name (map (λ a. a.alias) (add_alias name n aliases)) ≡ true
unfolding add_alias
elem-add_alias name n aliases = elim (Bool-cases (elem name (map (λ a. a.alias) aliases))) [
  | inl present ↦ rw present present
  | inr absent ↦ rw absent (elem-last name n aliases)
]

module _ {E : Type 0} where
  -- What an attempt leaves in `out`: the item is completed and its name has an alias, or it failed and
  -- the nodes and aliases are those of `db`.
  abbrev pub Ends : ℕ → EnrichmentItem → Store E → Store E → Type 0
  Ends item_id item db out =
      ((find_item item_id out.queue ≡ some (record item { status = completed }))
        × (elem item.name (map (λ a. a.alias) out.aliases) ≡ true))
      ⊎ ((find_item item_id out.queue ≡ some (record item { status = failed }))
          × (out.nodes ≡ db.nodes)
          × (out.aliases ≡ db.aliases))

module _ {E : Type 0} (services : Services E) where
  value : Store E → Result (Store E) → Store E
  value db (ok out) = out
  value db (raise error) = db

  pub queue-learn :
      (item : EnrichmentItem) (db out : Store E)
      → learn services item db ≡ ok out
      → (out.queue ≡ db.queue) × (elem item.name (map (λ a. a.alias) out.aliases) ≡ true)
  unfolding learn value
  queue-learn item db out h =
      let (name, _, named) = >>=-eq-ok (services.ask item) _ h in
      let (embeddings, _, embedded) = >>=-eq-ok (embed_batch services.create (name ∷ [])) _ named in
      let (embedding, _, created) = >>=-eq-ok (first_embedding embeddings) _ embedded in
      let (found, _, stored) =
        >>=-eq-ok
          (get_or_create_canonical_node db.nodes services.others services.fresh name
            item.entity_type embedding)
          _ created in
      let same = ap (value db) stored in
      (
        sym (ap (λ d. d.queue) same),
        ap (λ d. elem item.name (map (λ a. a.alias) d.aliases)) (sym same)
            ∙ elem-add_alias item.name found.0.id db.aliases,
      )

  pub enrich-pending :
      (item_id : ℕ) (db : Store E) (item : EnrichmentItem)
      → find_item item_id db.queue ≡ some item
      → item.status ≡ pending
      → enrich_unresolved_entity services item_id db
        ≡ finish item_id (start item_id db) (learn services item (start item_id db))
  unfolding enrich_unresolved_entity
  enrich-pending item_id db item f p = rw (enrich_unresolved_entity, f, p) refl

  find_item-twice :
      (item_id : ℕ) (s : EnrichmentStatus) (db : Store E) (item : EnrichmentItem)
      → find_item item_id db.queue ≡ some item
      → find_item item_id (set_item_status item_id s (start item_id db).queue)
        ≡ some (record item { status = s })
  find_item-twice item_id s db item f =
      find_item-set_item_status item_id s (set_item_status item_id processing db.queue)
        (record item { status = processing })
        (find_item-set_item_status item_id processing db.queue item f)

  Ends-finish :
      (item_id : ℕ) (db : Store E) (item : EnrichmentItem) (answer : Result (Store E))
      → find_item item_id db.queue ≡ some item
      → learn services item (start item_id db) ≡ answer
      → Ends item_id item db (finish item_id (start item_id db) answer)
  Ends-finish item_id db item (ok out) f returned =
      let (kept, present) = queue-learn item (start item_id db) out returned in
      inl (
        ap (λ q. find_item item_id (set_item_status item_id completed q)) kept
            ∙ find_item-twice item_id completed db item f,
        present,
      )
  Ends-finish item_id db item (raise error) f raised =
      inr (find_item-twice item_id failed db item f, refl, refl)

  -- The attempt at an item that is found and pending ends with the item completed and an alias for its
  -- name in the table, or with the item failed and the nodes and aliases as they were.
  pub Ends-enrich_unresolved_entity :
      (item_id : ℕ) (db : Store E) (item : EnrichmentItem)
      → find_item item_id db.queue ≡ some item
      → item.status ≡ pending
      → Ends item_id item db (enrich_unresolved_entity services item_id db)
  Ends-enrich_unresolved_entity item_id db item f p =
      subst (Ends item_id item db) (sym (enrich-pending item_id db item f p))
        (Ends-finish item_id db item (learn services item (start item_id db)) f refl)
