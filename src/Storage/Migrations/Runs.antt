-- ===== src/Storage/Migrations/Runs.antt =====
-- Which migrations cannot run.
use jenezis.Prelude.{
  ◌≡◌, ◌≢◌, refl, sym, ◌∙◌, Bool, true, false, not, ◌&&◌, ◌||◌, List, [], ◌∷◌, ◌++◌, elem, take,
  drop, none, Text, Text_eq, codes, Result, ok, raise, ◌>>=◌, >>=-eq-ok, arith,
}
use jenezis.Storage.Migrations.{
  integer, Catalog, Column, Operation, add_column, drop_constraint, has_column, table_names, guard,
  apply, run,
}
use jenezis.Storage.Migrations.Versions.{
  downgrade_initial, downgrade_ontology, upgrade_rebuild, downgrade_rebuild, downgrade_queue,
}

pub guard_ok : (b : Bool) (s s' : Catalog) → guard b s ≡ ok s' → (b ≡ true) × (s' ≡ s)
guard_ok true s s' h = (refl, cc h)
guard_ok false s s' h = cc h

chain :
    (m : Result Catalog) (f g h : Catalog → Result Catalog)
    → ((t : Catalog) → h t ≡ (f t >>= g))
    → (m >>= h) ≡ ((m >>= f) >>= g)
chain (ok t) f g h e = e t
chain (raise error) f g h e = refl

module _ (is_filled : Text → Bool) where
  pub run-append :
      (before after : List Operation) (s : Catalog)
      → run is_filled (before ++ after) s ≡ (run is_filled before s >>= run is_filled after)
  unfolding run
  run-append [] after s = refl
  run-append (operation ∷ before) after s =
      chain (apply is_filled operation s) (run is_filled before) (run is_filled after)
        (run is_filled (before ++ after)) (run-append before after)

  -- A statement that is always refused stops its migration.
  refused_inside :
      (before after : List Operation) (operation : Operation) (s out : Catalog)
      → ((t u : Catalog) → apply is_filled operation t ≢ ok u)
      → run is_filled (before ++ operation ∷ after) s ≢ ok out
  unfolding run
  refused_inside before after operation s out refused h =
      let (t, _, h') =
        >>=-eq-ok (run is_filled before s) _ (sym (run-append before (operation ∷ after) s) ∙ h) in
      let (u, h'', _) = >>=-eq-ok (apply is_filled operation t) _ h' in refused t u h''

  add_column-refused :
      (table : Text) (column : Column)
      → column.nullable ≡ false
      → is_filled table ≡ true
      → (t u : Catalog) → apply is_filled (add_column table column) t ≢ ok u
  unfolding apply
  add_column-refused table column needed filled t u h =
      let (allowed, _) =
        guard_ok
          (elem table (table_names t.tables)
            && not (has_column table column.name t.tables)
            && (column.nullable || not (is_filled table)))
          _ u h in
      let refused : (column.nullable || not (is_filled table)) ≡ false = rw (needed, filled) refl in
      absurd (
        last (elem table (table_names t.tables)) (not (has_column table column.name t.tables))
          (column.nullable || not (is_filled table)) allowed refused)
    where
      last : (a b c : Bool) → (a && b && c) ≡ true → c ≢ false
      last a b c allowed refused = ground arith

  -- The revision that adds the column `domain_config_id` is refused on every catalogue where the table of
  -- the documents has rows, as the column is not nullable and has no default.
  pub upgrade_rebuild-ne-ok :
      is_filled (codes "documents") ≡ true
      → (s out : Catalog) → run is_filled upgrade_rebuild s ≢ ok out
  upgrade_rebuild-ne-ok filled s out =
      refused_inside (take 12 upgrade_rebuild) (drop 13 upgrade_rebuild)
        (add_column (codes "documents")
          (record { name = codes "domain_config_id"; type = integer; nullable = false }))
        s out (add_column-refused _ _ refl filled)

  -- From no catalogue do the downgrades lead from the last revision to the empty schema: one of them
  -- drops a constraint without giving its name.
  pub downgrades-ne-ok :
      (s out : Catalog)
      → run is_filled
          (downgrade_queue ++ (downgrade_rebuild ++ (downgrade_ontology ++ downgrade_initial)))
          s
        ≢ ok out
  downgrades-ne-ok s out =
      refused_inside (downgrade_queue ++ downgrade_rebuild)
        (drop 1 downgrade_ontology ++ downgrade_initial) (drop_constraint none (codes "documents"))
        s out (λ t u h. unfold apply in (cc h))
