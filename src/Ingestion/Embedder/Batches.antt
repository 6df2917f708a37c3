-- ===== src/Ingestion/Embedder/Batches.antt =====
-- Batching changes nothing of the result.
use jenezis.Prelude.{
  ℕ, zero, suc, ◌+◌, ◌≤◌, ◌<◌, ◌≡◌, refl, ap, ◌∙◌, false, List, [], ◌∷◌, ◌++◌, map, nat_eq, length,
  take, drop, drop-drop, take-append-drop, ltb, Text, arith, Bool-cases, inl, inr, Result, ok,
}
use jenezis.Ingestion.Embedder.{clean_text, embed_batch, embed_from, embed_all}

-- The endpoint answers a list of texts with the embedding of each, in order.
abbrev pub IsPointwise : {E : Type 0} → (List Text → Result (List E)) → (Text → E) → Type 0
IsPointwise create embed = (texts : List Text) → create texts ≡ ok (map embed texts)

map-append : {A B : Type 0} (f : A → B) (xs ys : List A) → map f xs ++ map f ys ≡ map f (xs ++ ys)
map-append f [] ys = refl
map-append f (x ∷ xs) ys = ap (◌∷◌ (f x)) (map-append f xs ys)

rejoin : {A : Type 0} (n i : ℕ) (xs : List A) → take n (drop i xs) ++ drop (i + n) xs ≡ drop i xs
rejoin n i xs = rw (← drop-drop n i xs) (take-append-drop n (drop i xs))

drop_all : {A : Type 0} (n : ℕ) (xs : List A) → length xs ≤ n → drop n xs ≡ []
drop_all zero [] h = refl
drop_all zero (x ∷ xs) h = absurd (omega arith)
drop_all (suc n) [] h = refl
drop_all (suc n) (x ∷ xs) h = drop_all n xs (omega arith)

module _ {E : Type 0} (create : List Text → Result (List E)) (embed : Text → E)
    (pointwise : IsPointwise create embed) where
  -- The embedding of a text as the code asks for it, newlines replaced.
  abbrev pub embedding : Text → E
  embedding t = embed (clean_text t)

  map-embed : (ts : List Text) → map embed (map clean_text ts) ≡ map embedding ts
  map-embed [] = refl
  map-embed (t ∷ ts) = ap (◌∷◌ (embed (clean_text t))) (map-embed ts)

  embed_batch_lem : (ts : List Text) → embed_batch create ts ≡ ok (map embedding ts)
  unfolding embed_batch
  embed_batch_lem [] = refl
  embed_batch_lem (t ∷ ts) = rw (pointwise (map clean_text (t ∷ ts)), map-embed (t ∷ ts))

  embed_from_lem :
      (fuel size : ℕ) (texts : List Text) (i : ℕ)
      → 0 < size
      → length texts ≤ i + fuel
      → embed_from create fuel size texts i ≡ ok (map embedding (drop i texts))
  unfolding embed_from
  embed_from_lem zero size texts i pos h = rw (drop_all i texts (omega arith))
  embed_from_lem (suc fuel) size texts i pos h = elim (Bool-cases (ltb i (length texts))) [
    | inr done ↦ rw (done, drop_all i texts (ground arith))
    | inl more ↦
        rw
          (
            more,
            embed_batch_lem (take size (drop i texts)),
            embed_from_lem fuel size texts (i + size) pos (omega arith),
          )
          (ap ok (
            map-append embedding (take size (drop i texts)) (drop (i + size) texts)
            ∙ ap (map embedding) (rejoin size i texts)))
  ]

  -- Where the endpoint answers a list with the embedding of each text, `embed_all` returns, for
  -- every batch size but 0, the embedding of each text in order.
  pub embed_all-map :
      (size : ℕ) (texts : List Text)
      → 0 < size
      → embed_all create size texts ≡ ok (map embedding texts)
  unfolding embed_all
  embed_all-map size texts pos =
      let positive : nat_eq size 0 ≡ false = ground arith in
      rw positive (embed_from_lem (length texts) size texts 0 pos (omega arith))
