-- ===== src/Storage/Metadata/Updates.antt =====
-- What `update_document_status` does to the table of documents.
use jenezis.Prelude.{
  ℕ, ◌≡◌, refl, true, false, List, [], ◌∷◌, Option, none, some, ◌⊎◌, ◌↔◌, inl, inr, arith, All,
  Text, Bool-cases, Option-cases, Result, ok, raise, value_error, invalid_transition, ◌==◌, ℕ_eq,
  nat_eq_iff, if◌then◌else◌,
}
use jenezis.Storage.Status.{DocumentStatus, failed, document_status_eq, validate_status_transition}
use jenezis.Storage.Status.Runs.{Moves, next}
use jenezis.Storage.Metadata.{
  Document, get_document_by_id, write_document, update_document_status, check_update, set_status,
  is_missing,
}

-- A document marked FAILED says why.
abbrev pub HasReason : Document → Type 0
HasReason d = d.status ≡ failed → is_missing d.error_log ≡ false

pub get_document_by_id-id :
    (db : List Document) (i : ℕ) (d : Document) → get_document_by_id db i ≡ some d → d.id ≡ i
unfolding get_document_by_id
get_document_by_id-id [] i d h = cc
get_document_by_id-id (e ∷ db) i d h =
    ground (arith, nat_eq_iff e.id i, get_document_by_id-id db i d)

get-write :
    (db : List Document) (doc : Document) (j : ℕ)
    → get_document_by_id (write_document doc db) j ≡ (
        if j == doc.id
        then elim (get_document_by_id db j) [ none ↦ none | some _ ↦ some doc ]
        else get_document_by_id db j)
unfolding get_document_by_id write_document
get-write [] doc j = ground arith
get-write (e ∷ db) doc j =
    ground
      (arith, nat_eq_iff e.id doc.id, nat_eq_iff j doc.id, nat_eq_iff e.id j, get-write db doc j)

-- The two ways in which a call succeeds.
pub update_cases :
    (db : List Document) (i : ℕ) (s : DocumentStatus) (message : Option Text) {r : Option Document}
    {db' : List Document}
    → update_document_status db i s message ≡ ok (r, db')
    → (get_document_by_id db i ≡ none) × (r ≡ none) × (db' ≡ db)
      ⊎ (doc : Document) × (get_document_by_id db i ≡ some doc)
        × (check_update doc.status s message ≡ ok tt)
        × (r ≡ some (set_status doc s message))
        × (db' ≡ write_document (set_status doc s message) db)
unfolding update_document_status
update_cases db i s message h = elim (Option-cases (get_document_by_id db i)) [
  | inl absent ↦ inl (ground arith)
  | inr (doc, found) ↦ inr (doc, found, ground arith, ground arith, ground arith)
]

pub check_update_ok :
    (current s : DocumentStatus) (message : Option Text)
    → check_update current s message ≡ ok tt
    → (validate_status_transition current s ≡ ok tt) × (s ≡ failed → is_missing message ≡ false)
unfolding check_update
check_update_ok current s message h = ground arith

-- A call that succeeds returns the document as it then stands in the table, and every other
-- document is what it was.
pub get-update_document_status :
    (db : List Document) (i : ℕ) (s : DocumentStatus) (message : Option Text) {r : Option Document}
    {db' : List Document}
    → update_document_status db i s message ≡ ok (r, db')
    → (j : ℕ) → get_document_by_id db' j ≡ (if j == i then r else get_document_by_id db j)
unfolding set_status
get-update_document_status db i s message {r} {db'} h j = elim (update_cases db i s message h) [
  | inl (absent, none_r, same) ↦ ground (arith, nat_eq_iff j i)
  | inr (doc, found, _, some_r, written) ↦ ground (
    arith,
    nat_eq_iff j i,
    get_document_by_id-id db i doc found,
    get-write db (set_status doc s message) j,
  )
]

-- The document has the new status afterwards.
pub update-status :
    (db : List Document) (i : ℕ) (s : DocumentStatus) (message : Option Text) {r : Option Document}
    {db' : List Document}
    → update_document_status db i s message ≡ ok (r, db')
    → (d : Document) → get_document_by_id db' i ≡ some d
    → d.status ≡ s
unfolding set_status
update-status db i s message {r} {db'} e d f = elim (update_cases db i s message e) [
  | inl (absent, _, same) ↦ ground (arith, same)
  | inr (doc, _, _, some_r, _) ↦
      ground (arith, get-update_document_status db i s message e i, nat_eq_iff i i)
]

-- For a document of the table, a call raises InvalidStatusTransitionError exactly when the change of
-- status is not allowed, and ValueError exactly when it is allowed, the new status is FAILED and no
-- error message is given.
pub update_document_status-eq-raise :
    (db : List Document) (i : ℕ) (s : DocumentStatus) (message : Option Text) (doc : Document)
    → get_document_by_id db i ≡ some doc
    → ((update_document_status db i s message ≡ raise invalid_transition)
        ↔ (validate_status_transition doc.status s ≡ raise invalid_transition))
      × ((update_document_status db i s message ≡ raise value_error) ↔ (
          (validate_status_transition doc.status s ≡ ok tt)
          × (s ≡ failed)
          × (is_missing message ≡ true)))
unfolding update_document_status validate_status_transition
update_document_status-eq-raise db i s message doc found =
    ((λ h. ground arith, λ h. ground arith), (λ h. ground arith, λ h. ground arith))

All-write :
    (P : Document → Type 0) (doc : Document) (db : List Document)
    → P doc
    → All P db
    → All P (write_document doc db)
unfolding write_document
All-write P doc [] h hs = tt
All-write P doc (d ∷ db) h hs = elim (Bool-cases (d.id == doc.id)) [
  | inl same ↦ rw same (h, All-write P doc db h hs.1)
  | inr other ↦ rw other (hs.0, All-write P doc db h hs.1)
]

-- Every document marked FAILED carries an error message, and every accepted call keeps that.
pub update_document_status-HasReason :
    (db : List Document) (i : ℕ) (s : DocumentStatus) (message : Option Text) {r : Option Document}
    {db' : List Document}
    → update_document_status db i s message ≡ ok (r, db')
    → All HasReason db
    → All HasReason db'
unfolding set_status
update_document_status-HasReason db i s message h reasons = elim (update_cases db i s message h) [
  | inl (_, _, same) ↦ rw same reasons
  | inr (doc, _, checked, _, written) ↦ rw written (
      All-write HasReason (set_status doc s message) db
        (check_update_ok doc.status s message checked).1 reasons)
]

-- A call of `update_document_status` with its arguments.
pub record Request : Type 0 where
  pub doc_id : ℕ
  pub status : DocumentStatus
  pub error_message : Option Text

-- The table after a call: a refused one changes nothing.
abbrev pub after : Request → List Document → List Document
after q db = elim (update_document_status db q.doc_id q.status q.error_message) [
  | ok (_, db') ↦ db'
  | raise _ ↦ db
]

abbrev pub after_all : List Request → List Document → List Document
after_all [] db = db
after_all (q ∷ qs) db = after_all qs (after q db)

-- What has become of the document `j`.
abbrev pub Follows : DocumentStatus → Option Document → Type 0
Follows s o = (d : Document) × (o ≡ some d) × Moves s d.status

Follows-update :
    (db : List Document) (i : ℕ) (t : DocumentStatus) (message : Option Text) (j : ℕ)
    (s : DocumentStatus) {r : Option Document} {db' : List Document}
    → update_document_status db i t message ≡ ok (r, db')
    → Follows s (get_document_by_id db j)
    → Follows s (get_document_by_id db' j)
Follows-update db i t message j s {r} {db'} e (d, found, m) = elim (update_cases db i t message e) [
  | inl (_, _, same) ↦ (d, rw same found, m)
  | inr (doc, found', checked, some_r, _) ↦ elim (Bool-cases (j == i)) [
    | inl here' ↦ (
      set_status doc t message,
      ground (arith, get-update_document_status db i t message e j),
      Moves-set_status doc (rw (same_document doc here' found') at m)
          (check_update_ok doc.status t message checked).0,
    )
    | inr other ↦ (d, ground (arith, get-update_document_status db i t message e j), m)
  ]
]
  where
    same_document :
        (doc : Document) → (j == i) ≡ true → get_document_by_id db i ≡ some doc → d ≡ doc
    same_document doc h f = ground (arith, nat_eq_iff j i)

    Moves-set_status :
        (doc : Document)
        → Moves s doc.status
        → validate_status_transition doc.status t ≡ ok tt
        → Moves s (set_status doc t message).status
    Moves-set_status doc m' h = unfold set_status in next m' h

Follows-after :
    (q : Request) (db : List Document) (j : ℕ) (s : DocumentStatus)
    → Follows s (get_document_by_id db j)
    → Follows s (get_document_by_id (after q db) j)
Follows-after q db j s f = go (update_document_status db q.doc_id q.status q.error_message) refl
  where
    go :
        (u : Result (Option Document × List Document))
        → update_document_status db q.doc_id q.status q.error_message ≡ u
        → Follows s (get_document_by_id (elim u [ ok (_, db') ↦ db' | raise _ ↦ db ]) j)
    go (raise _) e = f
    go (ok (r, db')) e = Follows-update db q.doc_id q.status q.error_message j s e f

-- Whatever calls are made and refused, a document of the table that has come by allowed changes from
-- a status is still there, and has come to its new status by allowed changes from that status.
pub after_all-Moves :
    (qs : List Request) (db : List Document) (j : ℕ) (s : DocumentStatus)
    → Follows s (get_document_by_id db j)
    → Follows s (get_document_by_id (after_all qs db) j)
after_all-Moves [] db j s f = f
after_all-Moves (q ∷ qs) db j s f = after_all-Moves qs (after q db) j s (Follows-after q db j s f)
