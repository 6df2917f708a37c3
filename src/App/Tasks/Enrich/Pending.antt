-- ===== src/App/Tasks/Enrich/Pending.antt =====
-- The items of the queue that are PENDING.
use jenezis.Prelude.{
  ℕ, zero, suc, ◌≤◌, ◌≡◌, refl, ap, subst, ◌∙◌, true, false, not, Bool-cases, inl, inr, List, [],
  ◌∷◌, map, filter, take, drop, length, elem, Distinct, some, ℕ_eq, nat_eq, nat_eq_iff, arith,
}
use jenezis.App.Tasks.Enrich.{
  EnrichmentStatus, EnrichmentItem, is_pending, pending, processing, completed, failed, find_item,
  set_item_status, schedule_enrichment,
}
use jenezis.App.Tasks.Enrich.Outcome.{find_item-same, find_item-other}

abbrev pub item_ids : List EnrichmentItem → List ℕ
item_ids = map (λ i. i.id)

-- The identifiers of the items that are PENDING.
abbrev pub pending_ids : List EnrichmentItem → List ℕ
pending_ids queue = item_ids (filter (λ i. is_pending i.status) queue)

abbrev pub without : ℕ → List ℕ → List ℕ
without id = filter (λ j. not (nat_eq j id))

pub pending_ids-set :
    (id : ℕ) (s : EnrichmentStatus) (queue : List EnrichmentItem)
    → is_pending s ≡ false
    → pending_ids (set_item_status id s queue) ≡ without id (pending_ids queue)
unfolding set_item_status
pending_ids-set id s [] h = refl
pending_ids-set id s (i ∷ queue) h = elim (Bool-cases (nat_eq i.id id)) [
  | inl same ↦ elim (Bool-cases (is_pending i.status)) [
    | inl waiting ↦ rw (same, h, waiting, same) (pending_ids-set id s queue h)
    | inr settled ↦ rw (same, h, settled) (pending_ids-set id s queue h)
  ]
  | inr other ↦ elim (Bool-cases (is_pending i.status)) [
    | inl waiting ↦ rw (other, waiting, other) (ap (◌∷◌ i.id) (pending_ids-set id s queue h))
    | inr settled ↦ rw (other, settled) (pending_ids-set id s queue h)
  ]
]

pub item_ids-set :
    (id : ℕ) (s : EnrichmentStatus) (queue : List EnrichmentItem)
    → item_ids (set_item_status id s queue) ≡ item_ids queue
unfolding set_item_status
item_ids-set id s [] = refl
item_ids-set id s (i ∷ queue) = elim (Bool-cases (nat_eq i.id id)) [
  | inl same ↦ rw same (ap (◌∷◌ i.id) (item_ids-set id s queue))
  | inr other ↦ rw other (ap (◌∷◌ i.id) (item_ids-set id s queue))
]

pub without-twice : (id : ℕ) (xs : List ℕ) → without id (without id xs) ≡ without id xs
without-twice id [] = refl
without-twice id (x ∷ xs) = ground (arith, without-twice id xs)

pub without-absent : (id : ℕ) (xs : List ℕ) → elem id xs ≡ false → without id xs ≡ xs
without-absent id [] h = refl
without-absent id (x ∷ xs) h =
    ground (arith, without-absent id xs, nat_eq_iff x id, nat_eq_iff id x)

elem-pending :
    (id : ℕ) (queue : List EnrichmentItem)
    → elem id (item_ids queue) ≡ false
    → elem id (pending_ids queue) ≡ false
elem-pending id [] h = refl
elem-pending id (i ∷ queue) h = elim (Bool-cases (is_pending i.status)) [
  | inl waiting ↦ rw waiting (ground (arith, elem-pending id queue))
  | inr settled ↦ rw settled (elem-pending id queue (ground arith))
]

pending_of : (s : EnrichmentStatus) → is_pending s ≡ true → s ≡ pending
pending_of pending h = refl
pending_of processing h = cc
pending_of completed h = cc
pending_of failed h = cc

-- A pending identifier is that of an item that is found and pending, where identifiers are distinct.
pub find-pending :
    (id : ℕ) (queue : List EnrichmentItem)
    → Distinct (item_ids queue)
    → elem id (pending_ids queue) ≡ true
    → (item : EnrichmentItem) × (find_item id queue ≡ some item) × (item.status ≡ pending)
find-pending id [] d h = cc
find-pending id (i ∷ queue) d h = elim (Bool-cases (nat_eq i.id id)) [
  | inl same ↦ elim (Bool-cases (is_pending i.status)) [
    | inl waiting ↦ (i, find_item-same id i queue same, pending_of i.status waiting)
    | inr settled ↦
        let gone : elem id (pending_ids queue) ≡ false =
          elem-pending id queue
            (subst (λ j. elem j (item_ids queue) ≡ false) ((nat_eq_iff i.id id).0 same) d.0) in
        let here : elem id (pending_ids queue) ≡ true = rw settled at h in absurd (cc (gone, here))
  ]
  | inr other ↦
      let (item, found, waiting) = find-pending id queue d.1 (elsewhere other) in
      (item, find_item-other id i queue other ∙ found, waiting)
]
  where
    elsewhere : nat_eq i.id id ≡ false → elem id (pending_ids queue) ≡ true
    elsewhere other = elim (Bool-cases (is_pending i.status)) [
      | inl waiting ↦ ground (arith, nat_eq_iff i.id id, nat_eq_iff id i.id)
      | inr settled ↦ rw settled at h
    ]

pub Distinct-pending :
    (queue : List EnrichmentItem) → Distinct (item_ids queue) → Distinct (pending_ids queue)
Distinct-pending [] d = tt
Distinct-pending (i ∷ queue) d = elim (Bool-cases (is_pending i.status)) [
  | inl waiting ↦ rw waiting (elem-pending i.id queue d.0, Distinct-pending queue d.1)
  | inr settled ↦ rw settled (Distinct-pending queue d.1)
]

take-map : {A C : Type 0} (f : A → C) (n : ℕ) (xs : List A) → map f (take n xs) ≡ take n (map f xs)
take-map f zero xs = refl
take-map f (suc n) [] = refl
take-map f (suc n) (x ∷ xs) = ap (◌∷◌ (f x)) (take-map f n xs)

pub drop-all : (n : ℕ) (xs : List ℕ) → length xs ≤ n → drop n xs ≡ []
drop-all zero [] h = refl
drop-all zero (x ∷ xs) h = absurd (omega (arith, h))
drop-all (suc n) [] h = refl
drop-all (suc n) (x ∷ xs) h = drop-all n xs (omega (arith, h))

pub schedule-take :
    (queue : List EnrichmentItem) → schedule_enrichment queue ≡ take 100 (pending_ids queue)
unfolding schedule_enrichment
schedule-take queue = take-map (λ i. i.id) 100 (filter (λ i. is_pending i.status) queue)
