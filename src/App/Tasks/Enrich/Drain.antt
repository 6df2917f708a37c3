-- ===== src/App/Tasks/Enrich/Drain.antt =====
-- The scheduler empties the queue.
use jenezis.Prelude.{
  ℕ, zero, suc, ◌+◌, ◌*◌, ◌≤◌, ◌≡◌, refl, sym, ap, subst, ◌∙◌, true, false, List, [], ◌∷◌, take,
  drop, drop-drop, length, elem, Distinct, ℕ_eq, nat_eq_iff, Result, ok, raise, arith,
}
use jenezis.App.Tasks.Enrich.{
  EnrichmentStatus, EnrichmentItem, is_pending, processing, completed, failed, set_item_status,
  Store, Services, learn, start, finish, enrich_unresolved_entity, schedule_enrichment,
}
use jenezis.App.Tasks.Enrich.Outcome.{enrich-pending, queue-learn}
use jenezis.App.Tasks.Enrich.Pending.{
  item_ids, pending_ids, without, pending_ids-set, item_ids-set, without-twice, without-absent,
  find-pending, Distinct-pending, drop-all, schedule-take,
}

module _ {E : Type 0} where
  -- What an attempt at the item `id` leaves of the queue.
  record Removes (id : ℕ) (db out : Store E) : Type 0 where
    left : pending_ids out.queue ≡ without id (pending_ids db.queue)
    same : item_ids out.queue ≡ item_ids db.queue

  set_twice-Removes :
      (id : ℕ) (s : EnrichmentStatus) (db out : Store E)
      → is_pending s ≡ false
      → out.queue ≡ set_item_status id s (set_item_status id processing db.queue)
      → Removes id db out
  set_twice-Removes id s db out settled e = record {
    left =
        ap pending_ids e
        ∙ pending_ids-set id s (set_item_status id processing db.queue) settled
        ∙ ap (without id) (pending_ids-set id processing db.queue refl)
        ∙ without-twice id (pending_ids db.queue);
    same =
        ap item_ids e
        ∙ item_ids-set id s (set_item_status id processing db.queue)
        ∙ item_ids-set id processing db.queue;
  }

  finish-Removes :
      (services : Services E) (id : ℕ) (item : EnrichmentItem) (db : Store E)
      (answer : Result (Store E))
      → learn services item (start id db) ≡ answer
      → Removes id db (finish id (start id db) answer)
  finish-Removes services id item db (ok learned) e =
      set_twice-Removes id completed db (finish id (start id db) (ok learned)) refl
        (ap (set_item_status id completed) (queue-learn services item (start id db) learned e).0)
  finish-Removes services id item db (raise error) e =
      set_twice-Removes id failed db (finish id (start id db) (raise error)) refl refl

  enrich-Removes :
      (services : Services E) (id : ℕ) (db : Store E)
      → Distinct (item_ids db.queue)
      → elem id (pending_ids db.queue) ≡ true
      → Removes id db (enrich_unresolved_entity services id db)
  enrich-Removes services id db d h =
      let (item, found, waiting) = find-pending id db.queue d h in
      subst (Removes id db) (sym (enrich-pending services id db item found waiting))
        (finish-Removes services id item db (learn services item (start id db)) refl)

  -- The tasks that a tick dispatches run one after another, each with its own answers.
  abbrev pub run_enrichments : (ℕ → Services E) → List ℕ → Store E → Store E
  run_enrichments services [] db = db
  run_enrichments services (id ∷ ids) db =
      run_enrichments services ids (enrich_unresolved_entity (services id) id db)

  -- The first pending items are done, and the others still wait.
  run_enrichments-take :
      (services : ℕ → Services E) (n : ℕ) (xs : List ℕ) (db : Store E)
      → Distinct (item_ids db.queue)
      → Distinct xs
      → pending_ids db.queue ≡ xs
      → (pending_ids (run_enrichments services (take n xs) db).queue ≡ drop n xs)
        × Distinct (item_ids (run_enrichments services (take n xs) db).queue)
  run_enrichments-take services zero xs db d dx e = (e, d)
  run_enrichments-take services (suc n) [] db d dx e = (e, d)
  run_enrichments-take services (suc n) (x ∷ xs) db d dx e =
      let removed = enrich-Removes (services x) x db d (rw e (ground (arith, nat_eq_iff x x))) in
      run_enrichments-take services n xs (enrich_unresolved_entity (services x) x db)
        (subst Distinct (sym removed.same) d) dx.1
        (removed.left ∙ ap (without x) e ∙ ground (arith, nat_eq_iff x x, without-absent x xs dx.0))

  -- A tick of the scheduler and the tasks that it dispatches.
  abbrev pub tick : (ℕ → Services E) → Store E → Store E
  tick services db = run_enrichments services (schedule_enrichment db.queue) db

  abbrev pub ticks : ℕ → (ℕ → ℕ → Services E) → Store E → Store E
  ticks zero services db = db
  ticks (suc n) services db = ticks n services (tick (services n) db)

  tick-drop :
      (services : ℕ → Services E) (db : Store E)
      → Distinct (item_ids db.queue)
      → (pending_ids (tick services db).queue ≡ drop 100 (pending_ids db.queue))
        × Distinct (item_ids (tick services db).queue)
  tick-drop services db d = rw (schedule-take db.queue) (
      run_enrichments-take services 100 (pending_ids db.queue) db d (Distinct-pending db.queue d)
        refl)

  ticks-left :
      (n : ℕ) (services : ℕ → ℕ → Services E) (db : Store E)
      → Distinct (item_ids db.queue)
      → pending_ids (ticks n services db).queue ≡ drop (100 * n) (pending_ids db.queue)
  ticks-left zero services db d = refl
  ticks-left (suc n) services db d =
      let (left, distinct) = tick-drop (services n) db d in
      let more : 100 + 100 * n ≡ 100 * suc n = omega arith in
      ticks-left n services (tick (services n) db) distinct
      ∙ ap (drop (100 * n)) left
      ∙ drop-drop (100 * n) 100 (pending_ids db.queue)
      ∙ ap (λ k. drop k (pending_ids db.queue)) more

  -- Where the identifiers of the queue are distinct, each tick whose tasks run settles the first hundred
  -- pending items, whatever the services answer: after `n` ticks the pending ones are those behind the
  -- first hundred times `n`, and none where there were no more.
  pub ticks-drop :
      (n : ℕ) (services : ℕ → ℕ → Services E) (db : Store E)
      → Distinct (item_ids db.queue)
      → (pending_ids (ticks n services db).queue ≡ drop (100 * n) (pending_ids db.queue))
        × (length (pending_ids db.queue) ≤ 100 * n → pending_ids (ticks n services db).queue ≡ [])
  ticks-drop n services db d = (
    ticks-left n services db d,
    λ few. ticks-left n services db d ∙ drop-all (100 * n) (pending_ids db.queue) few,
  )
