-- ===== src/Tests/GraphRuns.antt =====
-- The graph store on a graph of two documents.
use jenezis.Prelude.{
  ℕ, ◌+◌, ◌≡◌, ◌↔◌, Text, refl, false, not, ◌&&◌, List, [], ◌∷◌, length, elem, keys, In, Text_eq,
  ℕ_eq, codes, text_eq, some, ◌==◌,
}
use jenezis.Tests.Samples.{graph}
use jenezis.Storage.Rows.{Value, Value_eq, text, Key, text_key}
use jenezis.Storage.Graph.{EntityProps, Pair_eq}
use jenezis.Storage.Graph.Engine.{RelationRow, delete_document, garbage_collect_orphans}
use jenezis.Storage.Graph.Invariant.{IsWellFormed}
use jenezis.Storage.Graph.Deletion.{IsMentioned, delete_document-left, garbage_collect_orphans-left}
use jenezis.Storage.Graph.Store.{add_entities_and_relations}
use jenezis.Storage.Graph.Store.Ends.{add_entities_and_relations-IsWellFormed}

graph-IsWellFormed : IsWellFormed graph
unfolding text_eq
graph-IsWellFormed = record {
  documents_Distinct = (refl, (refl, tt));
  chunks_Distinct = (refl, (refl, tt));
  entities_Distinct = (refl, (refl, tt));
  has_chunk_ends = ((refl, refl), ((refl, refl), tt));
  mentions_ends = ((refl, refl), tt);
  relations_ends = ((refl, refl), tt);
}

abbrev eve : List (Key × Value ℕ)
eve =
    (text_key (codes "id"), text (codes "eve"))
    ∷ (text_key (codes "name"), text (codes "Eve"))
    ∷ (text_key (codes "type"), text (codes "Person"))
    ∷ []

abbrev knows : RelationRow ℕ
knows = record {
  source_id = text (codes "eve");
  target_id = text (codes "ada");
  type = some (codes "KNOWS");
  chunk_id = text (codes "c2");
}

add_entities_and_relations-IsWellFormed_example :
    IsWellFormed (add_entities_and_relations (λ n. false) (eve ∷ []) (knows ∷ []) graph).1
add_entities_and_relations-IsWellFormed_example =
    add_entities_and_relations-IsWellFormed (λ n. false) (eve ∷ []) (knows ∷ []) graph
      graph-IsWellFormed

delete_document-left_example :
    ((d : ℕ)
      → elem d (keys (delete_document 1 graph).documents)
        ≡ (elem d (keys graph.documents) && not (d == 1)))
    × ((c : Value ℕ)
        → elem c (keys (delete_document 1 graph).chunks)
          ≡ (elem c (keys graph.chunks) && not (elem (1, c) graph.has_chunk)))
    × ((delete_document 1 graph).entities ≡ graph.entities)
    × ((delete_document 1 graph).relations ≡ graph.relations)
delete_document-left_example = delete_document-left 1 graph

garbage_collect_orphans-left_example :
    ((p : Value ℕ × EntityProps ℕ)
      → In p (garbage_collect_orphans graph).0.entities
        ↔ (In p graph.entities × IsMentioned graph p.0))
    × ((r : ((Value ℕ × Value ℕ) × Text) × Value ℕ)
        → In r (garbage_collect_orphans graph).0.relations
          ↔ (In r graph.relations × IsMentioned graph r.0.0.0 × IsMentioned graph r.0.0.1))
    × ((garbage_collect_orphans graph).0.documents ≡ graph.documents)
    × ((garbage_collect_orphans graph).0.chunks ≡ graph.chunks)
    × ((garbage_collect_orphans graph).0.has_chunk ≡ graph.has_chunk)
    × ((garbage_collect_orphans graph).0.mentions ≡ graph.mentions)
    × (length (garbage_collect_orphans graph).0.entities + (garbage_collect_orphans graph).1
        ≡ length graph.entities)
    × ((garbage_collect_orphans (garbage_collect_orphans graph).0).1 ≡ 0)
garbage_collect_orphans-left_example = garbage_collect_orphans-left graph

abbrev follows : RelationRow ℕ
follows = record {
  source_id = text (codes "bob");
  target_id = text (codes "ada");
  type = some (codes "FOLLOWS");
  chunk_id = text (codes "c2");
}
