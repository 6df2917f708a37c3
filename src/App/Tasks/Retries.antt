-- ===== src/App/Tasks/Retries.antt =====
-- The retries of `process_document`, and `handle_dead_letter`, of examples/fastapi_app/tasks.py.
pub mod Stuck
use jenezis.Prelude.{
  ℕ, zero, suc, List, [], ◌∷◌, Option, none, some, lookup, Text, Text_eq, codes, nat_eq, Eq, Result,
  ok, raise, invalid_transition, if◌then◌else◌,
}
use jenezis.Storage.Status.{failed}
use jenezis.App.Tasks.{World, set_document_status}
use jenezis.App.Tasks.Process.{Setup, process_document}

-- `max_retries=3`
abbrev pub max_retries : ℕ
max_retries = 3

-- `autoretry_for=(Exception,)` with `self.retry`: the attempt of number `k`, and as many after it as
-- there are retries left. The last exception goes out.
unfoldable pub retry :
    {S : Type 0} → (ℕ → S → Result (Unit {0}) × S) → ℕ → ℕ → S → Result (Unit {0}) × S
retry attempt zero k s = attempt k s
retry attempt (suc left) k s =
    let again = retry attempt left (suc k) (attempt k s).1 in
    elim (attempt k s).0 [ ok _ ↦ attempt k s | raise _ ↦ again ]

-- The task with its retries: what the services answer may change with the attempt.
unfoldable pub process_task :
    {T O S : Type 0} → ⦃e : Eq O⦄ → (ℕ → Setup T O S) → ℕ → World O → Result (Unit {0}) × World O
unfolding retry process_document
process_task setups document_id = retry (λ k. process_document (setups k) document_id) max_retries 0

-- `except InvalidStatusTransitionError`: a refused transition only goes to the log.
abbrev pub swallow : {O : Type 0} → Result (Unit {0}) × World O → Result (Unit {0}) × World O
swallow (raise invalid_transition, w) = (ok tt, w)
swallow (m, w) = (m, w)

-- `kwargs` are those of the request that failed; `message` is the text of the report. The signature that
-- `self.retry` is given carries an argument `kwargs`, which the task does not take: with it the call
-- raises before the body and leaves the tables too.
unfoldable pub handle_dead_letter :
    {O : Type 0} → List (Text × ℕ) → Text → World O → Result (Unit {0}) × World O
handle_dead_letter kwargs message w = elim (lookup (codes "doc_id") kwargs) [
  | none ↦ (ok tt, w)
  | some doc_id ↦
      if nat_eq doc_id 0
      then (ok tt, w)
      else swallow (set_document_status doc_id failed (some message) w)
]
