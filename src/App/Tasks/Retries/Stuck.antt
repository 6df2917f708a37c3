-- ===== src/App/Tasks/Retries/Stuck.antt =====
-- A document whose ingestion fails for good.
use jenezis.Prelude.{ℕ, suc, ◌≡◌, ◌⊎◌, Eq, Result, ok, raise, Error, arith}
use jenezis.Storage.Status.{processing, completed}
use jenezis.App.Tasks.{World}
use jenezis.App.Tasks.Process.{Setup, process_document}
use jenezis.App.Tasks.Process.Ends.{HasStatus}
use jenezis.App.Tasks.Retries.{retry}

module _ {S : Type 0} (attempt : ℕ → S → Result (Unit {0}) × S) (left k : ℕ) (s : S) where
  pub retry-returned :
      {u : Unit {0}} → (attempt k s).0 ≡ ok u → retry attempt (suc left) k s ≡ attempt k s
  unfolding retry
  retry-returned e = ground arith

  pub retry-raised :
      {error : Error}
      → (attempt k s).0 ≡ raise error
      → retry attempt (suc left) k s ≡ retry attempt left (suc k) (attempt k s).1
  unfolding retry
  retry-raised e = ground arith

module _ {T O S : Type 0} ⦃e : Eq O⦄ (setups : ℕ → Setup T O S) (i : ℕ) where
  abbrev Settled : Result (Unit {0}) × World O → Type 0
  Settled m =
      (m.0 ≡ ok tt) × HasStatus i completed m.1.documents
      ⊎ (error : Error) × (m.0 ≡ raise error) × HasStatus i processing m.1.documents

  attempt : ℕ → World O → Result (Unit {0}) × World O
  attempt k = process_document (setups k) i
