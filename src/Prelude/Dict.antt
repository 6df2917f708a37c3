-- ===== src/Prelude/Dict.antt =====
-- A Python dict as an association list in insertion order.
use mathlib.Core.Path.{◌≡◌, refl, ◌∙◌}
use mathlib.Core.Bool.{Bool, true, false, ◌&&◌, ◌||◌}
use mathlib.Core.List.{List, [], ◌∷◌, ◌++◌, map}
use mathlib.Core.Logic.{inl, inr}
use mathlib.Core.Option.{Option, none, some}
use native.Mathlib.Omega.{arith}
use jenezis.Prelude.Tests.{if◌then◌else◌, Eq, ◌==◌, Bool-cases}
use jenezis.Prelude.Lists.{elem, All, filter}

module _ {ℓ κ} {K : Type ℓ} {V : Type κ} where
  abbrev pub keys : List (K × V) → List K
  keys = map (λ p. p.0)

  abbrev pub values : List (K × V) → List V
  values = map (λ p. p.1)

module _ {ℓ κ} {K : Type ℓ} {V : Type κ} ⦃e : Eq K⦄ where
  -- `m.get(k)`.
  abbrev pub lookup : K → List (K × V) → Option V
  lookup k [] = none
  lookup k ((j, v) ∷ m) = if k == j then some v else lookup k m

  -- `m[k] = v`: a key keeps its place.
  abbrev pub insert : K → V → List (K × V) → List (K × V)
  insert k v [] = (k, v) ∷ []
  insert k v ((j, w) ∷ m) = if k == j then (j, v) ∷ m else (j, w) ∷ insert k v m

  -- `m.get(k, d)`.
  abbrev pub lookup_or : K → V → List (K × V) → V
  lookup_or k d m = elim (lookup k m) [ none ↦ d | some v ↦ v ]

  pub lookup-insert :
      (k j : K) (v : V) (m : List (K × V))
      → lookup j (insert k v m) ≡ (if j == k then some v else lookup j m)
  lookup-insert k j v [] = refl
  lookup-insert k j v ((i, w) ∷ m) =
      ground (arith, e.beq_iff j k, e.beq_iff k i, e.beq_iff j i, lookup-insert k j v m)

-- No key twice.
abbrev pub Distinct {ℓ} : {A : Type ℓ} ⦃e : Eq A⦄ → List A → Type 0
Distinct [] = Unit
Distinct (x ∷ xs) = (elem x xs ≡ false) × Distinct xs

module _ {ℓ κ} {K : Type ℓ} {V : Type κ} ⦃e : Eq K⦄ where
  pub elem-keys-insert :
      (k j : K) (v : V) (m : List (K × V))
      → elem j (keys (insert k v m)) ≡ (if j == k then true else elem j (keys m))
  elem-keys-insert k j v [] = ground arith
  elem-keys-insert k j v ((i, w) ∷ m) =
      ground (arith, e.beq_iff j k, e.beq_iff k i, e.beq_iff j i, elem-keys-insert k j v m)

  pub Distinct-insert :
      (k : K) (v : V) (m : List (K × V)) → Distinct (keys m) → Distinct (keys (insert k v m))
  Distinct-insert k v [] h = ground arith
  Distinct-insert k v ((i, w) ∷ m) h =
      ground
        (arith, e.beq_iff k i, e.beq_iff i k, elem-keys-insert k i v m, Distinct-insert k v m h.1)

module _ {ℓ} {A : Type ℓ} ⦃e : Eq A⦄ where
  pub elem-append : (a : A) (xs ys : List A) → elem a (xs ++ ys) ≡ (elem a xs || elem a ys)
  elem-append a [] ys = refl
  elem-append a (x ∷ xs) ys = ground (arith, elem-append a xs ys)

  pub Distinct-snoc :
      (xs : List A) (x : A) → Distinct xs → elem x xs ≡ false → Distinct (xs ++ x ∷ [])
  Distinct-snoc [] x h n = (refl, tt)
  Distinct-snoc (y ∷ ys) x h n =
      ground
        (arith, e.beq_iff x y, e.beq_iff y x, elem-append y ys (x ∷ []), Distinct-snoc ys x h.1)

module _ {ℓ κ} {K : Type ℓ} {V : Type κ} ⦃e : Eq K⦄ where
  pub elem-keys-insert_old :
      (k j : K) (v : V) (m : List (K × V))
      → elem j (keys m) ≡ true
      → elem j (keys (insert k v m)) ≡ true
  elem-keys-insert_old k j v m h = ground (arith, elem-keys-insert k j v m, h)

  pub elem-keys-insert_new :
      (k : K) (v : V) (m : List (K × V)) → elem k (keys (insert k v m)) ≡ true
  elem-keys-insert_new k v m = ground (arith, elem-keys-insert k k v m, e.beq_iff k k)

  pub lookup_known :
      (k : K) (m : List (K × V)) → elem k (keys m) ≡ true → (v : V) × (lookup k m ≡ some v)
  lookup_known k [] h = cc
  lookup_known k ((j, w) ∷ m) h = elim (Bool-cases (k == j)) [
    | inl same ↦ (w, rw same)
    | inr other ↦ let (v, f) = lookup_known k m (rw other at h) in (v, rw other f)
  ]

  pub lookup_unknown : (k : K) (m : List (K × V)) → elem k (keys m) ≡ false → lookup k m ≡ none
  lookup_unknown k [] h = refl
  lookup_unknown k ((j, w) ∷ m) h = ground (arith, lookup_unknown k m)

  -- A predicate on keys holds of a dictionary with one key more.
  pub All-insert {μ} :
      (P : K → Type μ) (k : K) (v : V) (m : List (K × V))
      → P k
      → All (λ p. P p.0) m
      → All (λ p. P p.0) (insert k v m)
  All-insert P k v [] pk h = (pk, tt)
  All-insert P k v ((j, w) ∷ m) pk h = elim (Bool-cases (k == j)) [
    | inl same ↦ rw same h
    | inr new ↦ rw new (h.0, All-insert P k v m pk h.1)
  ]

  -- A filter on keys.
  pub elem-keys-filter :
      (t : K → Bool) (j : K) (m : List (K × V))
      → elem j (keys (filter (λ p. t p.0) m)) ≡ (elem j (keys m) && t j)
  elem-keys-filter t j [] = refl
  elem-keys-filter t j ((i, w) ∷ m) = elim (Bool-cases (j == i)) [
    | inl same ↦
        let eq = (e.beq_iff j i).0 same in
        rw eq (elim (Bool-cases (t i)) [
          | inl kept ↦ rw kept ((ground (arith, e.beq_iff i i)))
          | inr gone ↦ rw gone (elem-keys-filter t i m ∙ ground (arith, gone))
        ])
    | inr new ↦ ground (arith, elem-keys-filter t j m, new)
  ]

  pub Distinct-filter :
      (t : K → Bool) (m : List (K × V))
      → Distinct (keys m)
      → Distinct (keys (filter (λ p. t p.0) m))
  Distinct-filter t [] h = tt
  Distinct-filter t ((i, w) ∷ m) h = elim (Bool-cases (t i)) [
    | inl kept ↦ rw kept (ground (arith, elem-keys-filter t i m, h.0), Distinct-filter t m h.1)
    | inr gone ↦ rw gone (Distinct-filter t m h.1)
  ]

-- What is left by a filter satisfies its test.
pub All-filter {ℓ κ μ} :
    {A : Type ℓ} (t : A → Bool) (P : A → Type κ) (Q : A → Type μ)
    → ((a : A) → P a → t a ≡ true → Q a)
    → (xs : List A) → All P xs
    → All Q (filter t xs)
All-filter t P Q f [] h = tt
All-filter t P Q f (x ∷ xs) h = elim (Bool-cases (t x)) [
  | inl kept ↦ rw kept (f x h.0 kept, All-filter t P Q f xs h.1)
  | inr gone ↦ rw gone (All-filter t P Q f xs h.1)
]
