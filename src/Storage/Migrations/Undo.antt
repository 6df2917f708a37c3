-- ===== src/Storage/Migrations/Undo.antt =====
-- What is created can be dropped again.
use jenezis.Prelude.{
  ◌≡◌, refl, ap, ◌∙◌, Bool, true, false, not, List, [], ◌∷◌, ◌++◌, map, filter, elem, All, All-map,
  All-append, Option, Text, Text_eq, ◌==◌, ok, ◌>>=◌, >>=-eq-ok, arith,
}
use jenezis.Storage.Migrations.{
  Catalog, Table, Index, Column, ConstraintKind, Operation, create_table, drop_table, create_index,
  drop_index, add_column, drop_constraint, drop_column, create_foreign_key, create_extension,
  drop_extension, table_names, refers_to, is_referred, any, named, apply, run,
}
use jenezis.Storage.Migrations.Runs.{guard_ok, run-append}
use jenezis.Storage.Migrations.Catalogs.{
  filter-last, elem-last, IsClosed, filter_kept, referred-last, elem-more, elem-less,
}

-- What may be created and dropped again: an index, and a table without foreign keys.
abbrev pub IsCreation : Operation → Type 0
IsCreation (create_table name columns constraints) =
    (m : Text) → any (refers_to m) (map (named name) constraints) ≡ false
IsCreation (create_index name table columns is_unique) = Unit
IsCreation _ = ⊥

abbrev undo : Operation → Operation
undo (create_table name columns constraints) = drop_table name
undo (create_index name table columns is_unique) = drop_index name
undo operation = operation

abbrev pub undo_all : List Operation → List Operation
undo_all [] = []
undo_all (operation ∷ operations) = undo_all operations ++ undo operation ∷ []

module _ (is_filled : Text → Bool) where
  -- The statement that undoes a creation leaves the types of enumerations, and else what there was.
  abbrev Undoes : Operation → Type 0
  Undoes operation =
      (s s' : Catalog) (types : List Text)
      → IsClosed s
      → apply is_filled operation s ≡ ok s'
      → (apply is_filled (undo operation) (record s' { types = types })
          ≡ ok (record s { types = types }))
        × IsClosed s'

  create_index-Undoes :
      (name table : Text) (columns : List Text) (is_unique : Bool)
      → Undoes (create_index name table columns is_unique)
  unfolding apply
  create_index-Undoes name table columns is_unique s s' types closed h =
      let (allowed, made) = guard_ok _ _ s' h in
      let i : Index = record {
        name = name;
        table = table;
        columns = columns;
        is_unique = is_unique;
      } in
      let known : elem table (table_names s.tables) ≡ true = ground (arith, allowed) in
      let free : elem name (map (λ j. j.name) s.indexes) ≡ false = ground (arith, allowed) in
      let there : elem name (map (λ j. j.name) (s.indexes ++ i ∷ [])) ≡ true =
        elem-last (λ j. j.name) name s.indexes i refl in
      let back : filter (λ j. not (j.name == name)) (s.indexes ++ i ∷ []) ≡ s.indexes =
        filter-last (λ j. j.name) name s.indexes i free refl in
      rw made (
        rw (there, back) refl,
        record {
          indexed = All-append _ s.indexes _ closed.indexed (known, tt);
          referred = closed.referred;
        },
      )

  create_table-Undoes :
      (name : Text) (columns : List Column) (constraints : List (Option Text × ConstraintKind))
      → ((m : Text) → any (refers_to m) (map (named name) constraints) ≡ false)
      → Undoes (create_table name columns constraints)
  unfolding apply
  create_table-Undoes name columns constraints plain s s' types closed h =
      let (allowed, made) = guard_ok _ _ s' h in
      let t : Table = record {
        name = name;
        columns = columns;
        constraints = map (named name) constraints;
      } in
      let free : elem name (table_names s.tables) ≡ false = ground (arith, allowed) in
      let there : elem name (table_names (s.tables ++ t ∷ [])) ≡ true =
        elem-last (λ u. u.name) name s.tables t refl in
      let alone : is_referred name (s.tables ++ t ∷ []) ≡ false =
        referred-last name s.tables t (plain name) (closed.referred name free) in
      let back : filter (λ u. not (u.name == name)) (s.tables ++ t ∷ []) ≡ s.tables =
        filter-last (λ u. u.name) name s.tables t free refl in
      let kept = filter_kept name (table_names s.tables) s.indexes free closed.indexed in
      rw made (
        rw (there, alone, back, kept) refl,
        record {
          indexed =
              All-map _ _ (λ i known. elem-more i.table s.tables t known) s.indexes closed.indexed;
          referred = λ m absent.
              referred-last m s.tables t (plain m)
                (closed.referred m (elem-less m s.tables t absent));
        },
      )

  IsCreation-Undoes : (operation : Operation) → IsCreation operation → Undoes operation
  IsCreation-Undoes (create_table name columns constraints) plain =
      create_table-Undoes name columns constraints plain
  IsCreation-Undoes (create_index name table columns is_unique) h =
      create_index-Undoes name table columns is_unique
  IsCreation-Undoes (drop_table name) h = elim h [ ]
  IsCreation-Undoes (drop_index name) h = elim h [ ]
  IsCreation-Undoes (add_column table column) h = elim h [ ]
  IsCreation-Undoes (drop_column table column) h = elim h [ ]
  IsCreation-Undoes (create_foreign_key name table target columns) h = elim h [ ]
  IsCreation-Undoes (drop_constraint name table) h = elim h [ ]
  IsCreation-Undoes (create_extension name) h = elim h [ ]
  IsCreation-Undoes (drop_extension name) h = elim h [ ]

  pub run-undo_all :
      (operations : List Operation) (s s' : Catalog) (types : List Text)
      → All IsCreation operations
      → IsClosed s
      → run is_filled operations s ≡ ok s'
      → run is_filled (undo_all operations) (record s' { types = types })
        ≡ ok (record s { types = types })
  unfolding run
  run-undo_all [] s s' types h closed e = cc e
  run-undo_all (operation ∷ operations) s s' types h closed e =
      let (t, applied, rest) = >>=-eq-ok (apply is_filled operation s) _ e in
      let (undone, closed') = IsCreation-Undoes operation h.0 s t types closed applied in
      run-append is_filled (undo_all operations) (undo operation ∷ []) (record s' { types = types })
      ∙ ap (λ m. m >>= run is_filled (undo operation ∷ []))
          (run-undo_all operations t s' types h.1 closed' rest)
      ∙ ap (λ m. m >>= run is_filled []) undone
