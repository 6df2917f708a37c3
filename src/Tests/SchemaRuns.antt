-- ===== src/Tests/SchemaRuns.antt =====
-- The migrations on concrete catalogues.
use jenezis.Prelude.{◌≡◌, ◌≢◌, refl, Bool, true, false, [], ◌++◌, Text, text_eq, ok, raise}
use jenezis.Storage.Migrations.{Catalog, apply, run}
use jenezis.Storage.Migrations.Versions.{
  upgrade_initial, downgrade_initial, upgrade_ontology, downgrade_ontology, upgrade_rebuild,
  downgrade_rebuild, upgrade_queue, downgrade_queue,
}
use jenezis.Storage.Migrations.Runs.{upgrade_rebuild-ne-ok, downgrades-ne-ok}
use jenezis.Storage.Migrations.Catalogs.{IsClosed}
use jenezis.Storage.Migrations.Again.{upgrade_queue-undone}

-- An empty schema, and tables without rows.
abbrev nothing : Catalog
nothing = record { tables = []; indexes = []; types = []; extensions = [] }

abbrev unfilled : Text → Bool
unfilled table = false

nothing-IsClosed : IsClosed nothing
nothing-IsClosed = record { indexed = tt; referred = λ name absent. refl }

-- The revisions run from the empty schema one after another.
upgrades :
    (out : Catalog) × (run unfilled
        (upgrade_initial ++ (upgrade_ontology ++ (upgrade_rebuild ++ upgrade_queue)))
        nothing
      ≡ ok out)
unfolding run apply text_eq
upgrades = (_, refl)

-- The schema with the table of the queue only.
abbrev queued : Catalog
unfolding run apply text_eq
queued = elim (run unfilled upgrade_queue nothing) [ ok s ↦ s | raise _ ↦ nothing ]

upgrade_queue-undone_example :
    (run unfilled downgrade_queue queued ≡ ok (record nothing { types = queued.types }))
    × ((out : Catalog)
        → run unfilled upgrade_queue (record nothing { types = queued.types }) ≢ ok out)
unfolding run apply text_eq
upgrade_queue-undone_example = upgrade_queue-undone unfilled nothing queued nothing-IsClosed refl

upgrade_rebuild-ne-ok_example : run (λ table. true) upgrade_rebuild nothing ≢ ok nothing
upgrade_rebuild-ne-ok_example = upgrade_rebuild-ne-ok (λ table. true) refl nothing nothing

downgrades-ne-ok_example :
    run unfilled
      (downgrade_queue ++ (downgrade_rebuild ++ (downgrade_ontology ++ downgrade_initial)))
      nothing
    ≢ ok nothing
downgrades-ne-ok_example = downgrades-ne-ok unfilled nothing nothing
