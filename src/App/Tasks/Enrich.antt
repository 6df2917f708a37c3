-- ===== src/App/Tasks/Enrich.antt =====
-- `enrich_unresolved_entity` and `schedule_enrichment` of examples/fastapi_app/tasks.py. The model's
-- answer and the embedding provider are parameters.
pub mod Outcome
pub mod Pending
pub mod Drain
use jenezis.Prelude.{
  ℕ, Bool, true, false, List, [], ◌∷◌, ◌++◌, map, filter, take, head?, elem, Option, none, some,
  Text, Text_eq, ℕ_eq, ◌==◌, Result, ok, raise, ◌>>=◌, runtime_error, if◌then◌else◌,
}
use jenezis.Storage.Canonical.{CanonicalNode, get_or_create_canonical_node}
use jenezis.Ingestion.Embedder.{embed_batch}
use jenezis.Ingestion.Resolver.{NodeAlias}

pub data EnrichmentStatus : Type 0 where
  pending processing completed failed : EnrichmentStatus

abbrev pub is_pending : EnrichmentStatus → Bool
is_pending pending = true
is_pending _ = false

pub record EnrichmentItem : Type 0 where
  pub id : ℕ
  pub name : Text
  pub entity_type : Text
  pub context_chunk : Text
  pub status : EnrichmentStatus

-- The tables of the task. `E` is the type of an embedding.
pub record Store (E : Type 0) : Type 0 where
  pub queue : List EnrichmentItem
  pub nodes : List (CanonicalNode E)
  pub aliases : List NodeAlias

-- `ask` is the model's canonical name for an item; `others` and `fresh` are what other sessions commit
-- to the nodes meanwhile, and the identifier that the sequence hands out.
pub record Services (E : Type 0) : Type 0 where
  pub ask : EnrichmentItem → Result Text
  pub create : List Text → Result (List E)
  pub others : List (CanonicalNode E)
  pub fresh : ℕ

-- `db.get(EnrichmentQueueItem, item_id)`
unfoldable pub find_item : ℕ → List EnrichmentItem → Option EnrichmentItem
find_item item_id queue = head? (filter (λ i. i.id == item_id) queue)

-- The assignment to `item.status`, with the commit that follows it.
unfoldable pub set_item_status : ℕ → EnrichmentStatus → List EnrichmentItem → List EnrichmentItem
set_item_status item_id status queue =
    map (λ i. if i.id == item_id then record i { status = status } else i) queue

-- An alias that exists is kept as it is.
unfoldable pub add_alias : Text → ℕ → List NodeAlias → List NodeAlias
add_alias name node_id aliases =
    if elem name (map (λ a. a.alias) aliases)
    then aliases
    else aliases ++ record { alias = name; canonical_node_id = node_id } ∷ []

module _ {E : Type 0} where
  -- The `[0]` of the provider's answer, which raises IndexError where it is empty.
  abbrev pub first_embedding : List E → Result E
  first_embedding [] = raise runtime_error
  first_embedding (embedding ∷ _) = ok embedding

  -- The last status: COMPLETED, or FAILED where anything raised.
  abbrev pub finish : ℕ → Store E → Result (Store E) → Store E
  finish item_id db (ok learned) = record learned {
    queue = set_item_status item_id completed learned.queue;
  }
  finish item_id db (raise _) = record db { queue = set_item_status item_id failed db.queue }

  -- `item.status = PROCESSING` and the commit.
  abbrev pub start : ℕ → Store E → Store E
  start item_id db = record db { queue = set_item_status item_id processing db.queue }

module _ {E : Type 0} (services : Services E) where
  -- The `try` block up to the alias.
  unfoldable pub learn : EnrichmentItem → Store E → Result (Store E)
  unfolding add_alias
  learn item db = do
    canonical_name ← services.ask item
    embeddings ← embed_batch services.create (canonical_name ∷ [])
    embedding ← first_embedding embeddings
    (node, _, nodes) ←
        get_or_create_canonical_node db.nodes services.others services.fresh canonical_name
          item.entity_type embedding
    ok (record db { nodes = nodes; aliases = add_alias item.name node.id db.aliases })

  unfoldable pub enrich_unresolved_entity : ℕ → Store E → Store E
  unfolding find_item set_item_status learn
  enrich_unresolved_entity item_id db = elim (find_item item_id db.queue) [
    | none ↦ db
    | some item ↦
        if is_pending item.status
        then finish item_id (start item_id db) (learn item (start item_id db))
        else db
  ]

-- The identifiers that the scheduler dispatches: at most 100 items that are PENDING. The query has no
-- ORDER BY, and the order of the table stands for the one in which the database answers.
unfoldable pub schedule_enrichment : List EnrichmentItem → List ℕ
schedule_enrichment queue = map (λ i. i.id) (take 100 (filter (λ i. is_pending i.status) queue))
