-- ===== src/App/Tasks/Sound.antt =====
-- The writes of the tasks keep the graph well formed.
use jenezis.Prelude.{map, Eq}
use jenezis.Storage.Graph.Invariant.{
  IsWellFormed, upsert_document-IsWellFormed, upsert_chunk_rows-IsWellFormed,
}
use jenezis.Storage.Graph.Deletion.{
  delete_document-IsWellFormed, garbage_collect_orphans-IsWellFormed,
}
use jenezis.Storage.Graph.Store.Ends.{add_entities_and_relations-IsWellFormed}
use jenezis.App.Tasks.Process.{entity_doc, remap}
use jenezis.App.Tasks.Graphs.{IsKept}

pub IsWellFormed-IsKept : {O : Type 0} → ⦃e : Eq O⦄ → IsKept (IsWellFormed {O = O} ⦃e = e⦄)
IsWellFormed-IsKept = record {
  documents = λ id filename g w. upsert_document-IsWellFormed id filename g w;
  chunks = λ id rows g w. upsert_chunk_rows-IsWellFormed id rows g w;
  entities = λ is_invalid es resolved_map relations g w.
      add_entities_and_relations-IsWellFormed is_invalid (map entity_doc es)
        (remap resolved_map relations) g w;
  deletions = λ id g w. delete_document-IsWellFormed id g w;
  collections = λ g w. garbage_collect_orphans-IsWellFormed g w;
}
