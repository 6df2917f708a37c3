-- ===== src/App/Api/Life/Rows.antt =====
-- What the writes to the table of documents do to the life of an identifier.
use jenezis.Prelude.{
  ℕ, suc, ◌<◌, ◌≡◌, refl, sym, ap, subst, ◌∙◌, true, false, not, ltb, Bool-cases, inl, inr, List,
  [], ◌∷◌, ◌++◌, filter, elem, Option, none, some, Text, Text_eq, ℕ_eq, ◌==◌, nat_eq, nat_eq_iff,
  ok, arith, All,
}
use jenezis.Storage.Status.{DocumentStatus, pending, deleting}
use jenezis.Storage.Status.Runs.{IsPermitted, IsPermitted-of_ok}
use jenezis.Storage.Metadata.{
  Document, get_document_by_id, update_document_status, set_status, check_update,
}
use jenezis.Storage.Metadata.Updates.{update_cases, check_update_ok, get-update_document_status}
use jenezis.App.Tasks.Keeps.{Survives}
use jenezis.App.Api.Tables.{ids, get-filter, get_document_by_id-absent}
use jenezis.App.Api.Inserts.{not-drawn}
use jenezis.App.Api.Accepted.{get_document_by_id-snoc}
use jenezis.App.Api.Life.{Phase, unborn, live, Life, accepted, refused, changed, deleted, phase_in}

get-filter-same :
    (i : ℕ) (db : List Document) → get_document_by_id (filter (λ d. not (d.id == i)) db) i ≡ none
unfolding get_document_by_id
get-filter-same i [] = refl
get-filter-same i (d ∷ db) = ground (arith, get-filter-same i db, nat_eq_iff d.id i)

get_document_by_id-snoc_other :
    (i : ℕ) (db : List Document) (d : Document)
    → nat_eq i d.id ≡ false
    → get_document_by_id (db ++ d ∷ []) i ≡ get_document_by_id db i
unfolding get_document_by_id
get_document_by_id-snoc_other i [] d h = ground (arith, nat_eq_iff i d.id, nat_eq_iff d.id i)
get_document_by_id-snoc_other i (c ∷ db) d h =
    ground (arith, get_document_by_id-snoc_other i db d, nat_eq_iff i d.id)

module _ (p : Phase) (i : ℕ) where
  Life-step : (a b : DocumentStatus) → IsPermitted a b → Life p (live a) → Life p (live b)
  Life-step a b (inl same) l = subst (λ s. Life p (live s)) same l
  Life-step a b (inr listed) l = changed l listed

  -- A change of the status of a row that is there.
  status_phase-update :
      (doc : Document) (s : DocumentStatus) (message : Option Text)
      → check_update doc.status s message ≡ ok tt
      → Life p (live doc.status)
      → Life p (live (set_status doc s message).status)
  unfolding set_status
  status_phase-update doc s message checked l =
      Life-step doc.status s
        (IsPermitted-of_ok doc.status s (check_update_ok doc.status s message checked).0) l

  update-Life :
      (limit j : ℕ) (s : DocumentStatus) (message : Option Text) (db : List Document)
      {r : Option Document} {db' : List Document}
      → Life p (phase_in limit db i)
      → update_document_status db j s message ≡ ok (r, db')
      → Life p (phase_in limit db' i)
  update-Life limit j s message db {r} {db'} l e = elim (Bool-cases (ltb i limit)) [
    | inr above ↦ rw above (rw above at l)
    | inl below ↦ elim (update_cases db j s message e) [
      | inl (_, _, same) ↦ rw same l
      | inr (doc, found, checked, some_r, _) ↦ elim (Bool-cases (nat_eq i j)) [
        | inl same ↦
            let now : get_document_by_id db' i ≡ some (set_status doc s message) =
              get-update_document_status db j s message e i ∙ ground (arith, some_r) in
            let was : get_document_by_id db i ≡ some doc =
              ap (get_document_by_id db) ((nat_eq_iff i j).0 same) ∙ found in
            rw (below, now) (status_phase-update doc s message checked (rw (below, was) at l))
        | inr other ↦
            let kept : get_document_by_id db' i ≡ get_document_by_id db i =
              get-update_document_status db j s message e i ∙ ground arith in
            rw (below, kept) (rw below at l)
      ]
    ]
  ]

  delete-Life :
      (limit j : ℕ) (db : List Document) (doc : Document)
      → get_document_by_id db j ≡ some doc
      → doc.status ≡ deleting
      → Life p (phase_in limit db i)
      → Life p (phase_in limit (filter (λ d. not (d.id == j)) db) i)
  delete-Life limit j db doc found marked l = elim (Bool-cases (ltb i limit)) [
    | inr above ↦ rw above (rw above at l)
    | inl below ↦ elim (Bool-cases (nat_eq i j)) [
      | inl same ↦
          let was : get_document_by_id db i ≡ some doc =
            ap (get_document_by_id db) ((nat_eq_iff i j).0 same) ∙ found in
          let none' : get_document_by_id (filter (λ d. not (d.id == j)) db) i ≡ none =
            subst (λ k. get_document_by_id (filter (λ d. not (d.id == k)) db) i ≡ none)
              ((nat_eq_iff i j).0 same) (get-filter-same i db) in
          rw (below, none') (deleted (subst (λ s. Life p (live s)) marked (rw (below, was) at l)))
      | inr other ↦ rw (below, get-filter j i db other) (rw below at l)
    ]
  ]

  pub Life-Survives : (limit j : ℕ) → Survives (λ db. Life p (phase_in limit db i)) j
  Life-Survives limit j = record {
    update = λ s message db l e. update-Life limit j s message db l e;
    delete = λ db doc f marked l. delete-Life limit j db doc f marked l;
  }

  -- What an insert does to the phase of an identifier: the next one is used.
  pub insert-Life :
      (limit : ℕ) (db : List Document)
      → All (λ d. d.id < limit) db
      → Life p (phase_in limit db i)
      → Life p (phase_in (suc limit) db i)
        × ((row : Document)
            → row.id ≡ limit
            → row.status ≡ pending
            → Life p (phase_in (suc limit) (db ++ row ∷ []) i))
  insert-Life limit db drawn l = elim (Bool-cases (nat_eq i limit)) [
    | inl same ↦
        let e : i ≡ limit = (nat_eq_iff i limit).0 same in
        let fresh : elem i (ids db) ≡ false =
          subst (λ k. elem k (ids db) ≡ false) (sym e) (not-drawn limit db drawn) in
        let absent = get_document_by_id-absent i db fresh in
        let was : ltb i limit ≡ false = ground arith in
        let now : ltb i (suc limit) ≡ true = ground arith in
        let unborn' : Life p unborn = rw was at l in
        (
          rw (now, absent) (refused unborn'),
          λ row numbered waiting.
              let found : get_document_by_id (db ++ row ∷ []) i ≡ some row =
                subst (λ k. get_document_by_id (db ++ row ∷ []) k ≡ some row) (numbered ∙ sym e)
                  (get_document_by_id-snoc db row
                    (subst (λ k. elem k (ids db) ≡ false) (e ∙ sym numbered) fresh)) in
              rw (now, found, waiting) (accepted unborn'),
        )
    | inr other ↦
        let same : ltb i (suc limit) ≡ ltb i limit = ground (arith, nat_eq_iff i limit) in
        (
          rw same l,
          λ row numbered waiting.
              let other' : nat_eq i row.id ≡ false =
                subst (λ k. nat_eq i k ≡ false) (sym numbered) other in
              rw (same, get_document_by_id-snoc_other i db row other') l,
        )
  ]
