-- ===== src/App/Tasks/Garbage.antt =====
-- `run_garbage_collection` of examples/fastapi_app/tasks.py, and the method of GraphStore that it calls.
use jenezis.Prelude.{Result, ok, Eq}
use jenezis.Storage.Graph.{Graph}
use jenezis.Storage.Graph.Engine.{garbage_collect_orphans}
use jenezis.App.Tasks.{World}

module _ {O : Type 0} ⦃e : Eq O⦄ where
  -- The number of the deleted entities only goes to the log.
  abbrev pub garbage_collect_orphaned_entities : Graph O → Graph O
  garbage_collect_orphaned_entities g = (garbage_collect_orphans g).0

  unfoldable pub run_garbage_collection : World O → Result (Unit {0}) × World O
  run_garbage_collection w = (ok tt, record w { graph = garbage_collect_orphaned_entities w.graph })
