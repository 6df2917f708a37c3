-- ===== src/Storage/Migrations/Again.antt =====
-- A revision that is taken back, and run again.
use jenezis.Prelude.{
  ◌≡◌, ◌≢◌, refl, sym, ap, subst, ◌∙◌, Bool, true, not, ◌&&◌, List, [], ◌∷◌, ◌++◌, map, head?,
  append-nil, append_assoc, elem, drop, All, Option, none, some, Text, Text_eq, ==_refl, codes, ok,
  >>=-eq-ok, arith,
}
use jenezis.Storage.Migrations.{
  Catalog, Column, ConstraintKind, Operation, create_table, drop_table, create_index, drop_index,
  add_column, drop_constraint, drop_column, create_foreign_key, create_extension, drop_extension,
  table_names, any, named, enums, has_targets, apply, run,
}
use jenezis.Storage.Migrations.Versions.{
  upgrade_initial, downgrade_initial, upgrade_queue, downgrade_queue,
}
use jenezis.Storage.Migrations.Runs.{guard_ok}
use jenezis.Storage.Migrations.Catalogs.{IsClosed}
use jenezis.Storage.Migrations.Undo.{IsCreation, run-undo_all}

elem-last_type :
    (types : List Text)
    → elem (codes "enrichmentstatus") (types ++ codes "enrichmentstatus" ∷ []) ≡ true
elem-last_type [] = rw (==_refl (codes "enrichmentstatus")) refl
elem-last_type (t ∷ types) = ground (arith, elem-last_type types)

-- The statement that creates the table of the queue.
abbrev first_queue : Operation
first_queue = elim (head? upgrade_queue) [ none ↦ drop_table [] | some operation ↦ operation ]

module _ (is_filled : Text → Bool) where
  -- The types that a creation makes.
  abbrev new_types : Operation → List Text
  new_types (create_table name columns constraints) = enums columns
  new_types _ = []

  abbrev all_types : List Operation → List Text
  all_types [] = []
  all_types (operation ∷ operations) = new_types operation ++ all_types operations

  apply-types :
      (operation : Operation) (s s' : Catalog)
      → IsCreation operation
      → apply is_filled operation s ≡ ok s'
      → s'.types ≡ s.types ++ new_types operation
  unfolding apply
  apply-types (create_table name columns constraints) s s' plain h =
      ap (λ u. u.types) ((guard_ok _ _ s' h).1)
  apply-types (create_index name table columns is_unique) s s' plain h =
      ap (λ u. u.types) ((guard_ok _ _ s' h).1) ∙ sym (append-nil s.types)
  apply-types (drop_table name) s s' plain h = elim plain [ ]
  apply-types (drop_index name) s s' plain h = elim plain [ ]
  apply-types (add_column table column) s s' plain h = elim plain [ ]
  apply-types (drop_column table column) s s' plain h = elim plain [ ]
  apply-types (create_foreign_key name table target columns) s s' plain h = elim plain [ ]
  apply-types (drop_constraint name table) s s' plain h = elim plain [ ]
  apply-types (create_extension name) s s' plain h = elim plain [ ]
  apply-types (drop_extension name) s s' plain h = elim plain [ ]

  run-types :
      (operations : List Operation) (s s' : Catalog)
      → All IsCreation operations
      → run is_filled operations s ≡ ok s'
      → s'.types ≡ s.types ++ all_types operations
  unfolding run
  run-types [] s s' plain h =
      let same : s ≡ s' = cc h in ap (λ u. u.types) (sym same) ∙ sym (append-nil s.types)
  run-types (operation ∷ operations) s s' plain h =
      let (t, applied, rest) = >>=-eq-ok (apply is_filled operation s) _ h in
      run-types operations t s' plain.1 rest
      ∙ ap (λ types. types ++ all_types operations) (apply-types operation s t plain.0 applied)
      ∙ append_assoc s.types (new_types operation) (all_types operations)

  create_table-taken :
      (name type : Text) (columns : List Column) (constraints : List (Option Text × ConstraintKind))
      (s : Catalog)
      → enums columns ≡ type ∷ []
      → elem type s.types ≡ true
      → (u : Catalog) → apply is_filled (create_table name columns constraints) s ≢ ok u
  unfolding apply
  create_table-taken name type columns constraints s made taken u h =
      let (allowed, _) = guard_ok _ _ u h in
      let used : any (λ e. elem e s.types) (enums columns) ≡ true = rw made (rw taken refl) in
      middle (not (elem name (table_names s.tables))) (any (λ e. elem e s.types) (enums columns))
        (has_targets (name ∷ table_names s.tables) (map (named name) constraints)) allowed used
    where
      middle : (a b c : Bool) → (a && not b && c) ≡ true → b ≢ true
      middle a b c allowed used = ground arith

  apply-taken :
      (operation : Operation) (type : Text) (s : Catalog)
      → new_types operation ≡ type ∷ []
      → elem type s.types ≡ true
      → (u : Catalog) → apply is_filled operation s ≢ ok u
  apply-taken (create_table name columns constraints) type s made taken =
      create_table-taken name type columns constraints s made taken
  apply-taken (create_index name table columns is_unique) type s made taken = absurd (cc made)
  apply-taken (drop_table name) type s made taken = absurd (cc made)
  apply-taken (drop_index name) type s made taken = absurd (cc made)
  apply-taken (add_column table column) type s made taken = absurd (cc made)
  apply-taken (drop_column table column) type s made taken = absurd (cc made)
  apply-taken (create_foreign_key name table target columns) type s made taken = absurd (cc made)
  apply-taken (drop_constraint name table) type s made taken = absurd (cc made)
  apply-taken (create_extension name) type s made taken = absurd (cc made)
  apply-taken (drop_extension name) type s made taken = absurd (cc made)

  -- A migration does not run again where its first type is still there.
  run-taken :
      (operation : Operation) (operations : List Operation) (type : Text) (s out : Catalog)
      → new_types operation ≡ type ∷ []
      → elem type s.types ≡ true
      → run is_filled (operation ∷ operations) s ≢ ok out
  unfolding run
  run-taken operation operations type s out made taken h =
      let (u, applied, _) = >>=-eq-ok (apply is_filled operation s) _ h in
      apply-taken operation type s made taken u applied

  -- On a catalogue whose indexes and foreign keys have their tables, the downgrade of the enrichment queue
  -- takes back its upgrade but for the type of the statuses, which stays, and with which the upgrade is
  -- refused from then on.
  pub upgrade_queue-undone :
      (s s' : Catalog)
      → IsClosed s
      → run is_filled upgrade_queue s ≡ ok s'
      → (run is_filled downgrade_queue s' ≡ ok (record s { types = s'.types }))
        × ((out : Catalog) → run is_filled upgrade_queue (record s { types = s'.types }) ≢ ok out)
  upgrade_queue-undone s s' closed h = (
    run-undo_all is_filled upgrade_queue s s' s'.types plain closed h,
    λ out.
        run-taken first_queue (drop 1 upgrade_queue) (codes "enrichmentstatus")
          (record s { types = s'.types }) out refl
          (subst (λ types. elem (codes "enrichmentstatus") types ≡ true)
            (sym (run-types upgrade_queue s s' plain h)) (elem-last_type s.types)),
  )
    where
      plain : All IsCreation upgrade_queue
      plain = ((λ m. refl), (tt, (tt, tt)))

  -- The first revision is taken back in the same way.
  upgrade_initial-undone :
      (s s' : Catalog)
      → IsClosed s
      → run is_filled upgrade_initial s ≡ ok s'
      → run is_filled downgrade_initial s' ≡ ok (record s { types = s'.types })
  upgrade_initial-undone s s' closed h =
      run-undo_all is_filled upgrade_initial s s' s'.types plain closed h
    where
      plain : All IsCreation upgrade_initial
      plain = ((λ m. refl), (tt, (tt, ((λ m. refl), (tt, (tt, tt))))))
