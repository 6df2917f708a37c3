-- ===== src/App/Api/Consistent.antt =====
-- The constraints of the tables and of the graph, and what keeps them.
use jenezis.Prelude.{
  ◌∙◌, ◌&&◌, ℕ, ◌<◌, ◌≡◌, refl, sym, subst, false, not, Bool-cases, inl, inr, List, [], ◌∷◌, map,
  elem, All, All-map, All-append, nat_eq_iff, Distinct, Distinct-snoc, Text, Text_eq, ℕ_eq, ◌==◌,
  Json, Eq, arith,
}
use jenezis.App.Tasks.{World}
use jenezis.App.Tasks.Keeps.{Survives}
use jenezis.App.Api.{Server, Ontology}
use jenezis.App.Api.Ontologies.{insert_ontology}
use jenezis.App.Api.Tables.{IsTable, filter-IsTable, update_document_status-IsTable}
use jenezis.App.Api.Handlers.{IsClosed, put_object-closed}
use jenezis.App.Api.Inserts.{HasTable, refers-snoc, map-snoc}
use jenezis.Storage.Graph.Invariant.{IsWellFormed}
use jenezis.App.Api.{NewDocument, hashes, refers, insert_document, send}
use jenezis.App.Api.Inserts.{insert_document-HasTable}

module _ {B O : Type 0} where
  -- A step that leaves the ontologies, and constraints of the documents that hold after it.
  pub record Keeps (s t : Server B O) : Type 0 where
    pub table : HasTable t
    pub same_ontologies : t.ontologies ≡ s.ontologies
    pub same_ids : t.ontology_ids ≡ s.ontology_ids
    pub same_graph : t.world.graph ≡ s.world.graph

  insert_document-same :
      (new : NewDocument) (t : Server B O)
      → ((insert_document new t).1.ontologies ≡ t.ontologies)
        × ((insert_document new t).1.ontology_ids ≡ t.ontology_ids)
        × ((insert_document new t).1.world.graph ≡ t.world.graph)
  unfolding insert_document
  insert_document-same new t =
      elim (Bool-cases (
        refers new.domain_config_id t.ontologies
        && not (elem new.document_hash (hashes t.world.documents)))) [
          | inl good ↦ rw good (refl, refl, refl)
          | inr bad ↦ rw bad (refl, refl, refl)
        ]

  module _ (s : Server B O) where
    insert_document-Keeps :
        (new : NewDocument) (t : Server B O) → Keeps s t → Keeps s (insert_document new t).1
    insert_document-Keeps new t k =
        let (same, same', same'') = insert_document-same new t in
        record {
          table = insert_document-HasTable new t k.table;
          same_ontologies = same ∙ k.same_ontologies;
          same_ids = same' ∙ k.same_ids;
          same_graph = same'' ∙ k.same_graph;
        }

    pub Keeps-IsClosed : IsClosed (Keeps s)
    unfolding send
    Keeps-IsClosed = record {
      inserts = insert_document-Keeps;
      puts = put_object-closed (Keeps s) (λ objects t k. record {
        table = k.table;
        same_ontologies = k.same_ontologies;
        same_ids = k.same_ids;
        same_graph = k.same_graph;
      });
      sends = λ message t k. record {
        table = k.table;
        same_ontologies = k.same_ontologies;
        same_ids = k.same_ids;
        same_graph = k.same_graph;
      };
    }

-- The constraints of the tables, and those of the graph.
pub record IsConsistent {B O : Type 0} ⦃e : Eq O⦄ (s : Server B O) : Type 0 where
  pub documents : HasTable s
  pub drawn : All (λ o. o.id < s.ontology_ids) s.ontologies
  pub distinct_ids : Distinct (map (λ o. o.id) s.ontologies)
  pub distinct_names : Distinct (map (λ o. o.name) s.ontologies)
  pub graph : IsWellFormed s.world.graph

pub IsTable-Survives :
    {limit : ℕ} {ontologies : List Ontology} (i : ℕ) → Survives (IsTable limit ontologies) i
IsTable-Survives i = record {
  update = λ s message db t e. update_document_status-IsTable db i s message t e;
  delete = λ db doc f marked t. filter-IsTable (λ d. not (d.id == i)) db t;
}

not-drawn-ontology :
    (limit : ℕ) (os : List Ontology)
    → All (λ o. o.id < limit) os
    → elem limit (map (λ o. o.id) os) ≡ false
not-drawn-ontology limit [] h = refl
not-drawn-ontology limit (o ∷ os) h =
    ground (arith, not-drawn-ontology limit os h.1, nat_eq_iff limit o.id)

module _ {B O : Type 0} ⦃e : Eq O⦄ where
  pub Keeps-IsConsistent : (s t : Server B O) → IsConsistent s → Keeps s t → IsConsistent t
  Keeps-IsConsistent s t c k = record {
    documents = k.table;
    drawn = rw (k.same_ontologies, k.same_ids) c.drawn;
    distinct_ids = rw k.same_ontologies c.distinct_ids;
    distinct_names = rw k.same_ontologies c.distinct_names;
    graph = subst IsWellFormed (sym k.same_graph) c.graph;
  }

  pub world-IsConsistent :
      (s : Server B O) (w : World O) (objects : List (Text × List B))
      → IsConsistent s
      → IsTable s.document_ids s.ontologies w.documents
      → IsWellFormed w.graph
      → IsConsistent (record s { world = w; objects = objects })
  world-IsConsistent s w objects c t g = record {
    documents = t;
    drawn = c.drawn;
    distinct_ids = c.distinct_ids;
    distinct_names = c.distinct_names;
    graph = g;
  }

  pub Keeps-self : (s : Server B O) → IsConsistent s → Keeps s s
  Keeps-self s c = record {
    table = c.documents;
    same_ontologies = refl;
    same_ids = refl;
    same_graph = refl;
  }

  pub insert_ontology-graph :
      (name : Text) (schema_json : Json) (s : Server B O)
      → (insert_ontology name schema_json s).1.world.graph ≡ s.world.graph
  unfolding insert_ontology
  insert_ontology-graph name schema_json s =
      elim (Bool-cases (elem name (map (λ o. o.name) s.ontologies))) [
        | inl taken ↦ rw (insert_ontology, taken) refl
        | inr new ↦ rw (insert_ontology, new) refl
      ]

  pub insert_ontology-IsConsistent :
      (name : Text) (schema_json : Json) (s : Server B O)
      → IsConsistent s
      → IsConsistent (insert_ontology name schema_json s).1
  unfolding insert_ontology
  insert_ontology-IsConsistent name schema_json s c =
      elim (Bool-cases (elem name (map (λ o. o.name) s.ontologies))) [
        | inl taken ↦ rw taken (record {
          documents = c.documents;
          drawn = All-map _ _ (λ o lt. omega arith) s.ontologies c.drawn;
          distinct_ids = c.distinct_ids;
          distinct_names = c.distinct_names;
          graph = c.graph;
        })
        | inr new ↦
            let o : Ontology = record {
              id = s.ontology_ids;
              name = name;
              schema_json = schema_json;
            } in
            rw new (record {
              documents = record {
                drawn = c.documents.drawn;
                distinct_ids = c.documents.distinct_ids;
                distinct_hashes = c.documents.distinct_hashes;
                referenced =
                    All-map _ _ (λ d r. refers-snoc d.domain_config_id s.ontologies o r)
                      s.world.documents c.documents.referenced;
              };
              drawn =
                  All-append _ s.ontologies _
                    (All-map _ _ (λ o lt. omega arith) s.ontologies c.drawn) (omega arith, tt);
              distinct_ids = rw (map-snoc (λ o. o.id) s.ontologies o) (
                  Distinct-snoc (map (λ o. o.id) s.ontologies) s.ontology_ids c.distinct_ids
                    (not-drawn-ontology s.ontology_ids s.ontologies c.drawn));
              distinct_names =
                  rw (map-snoc (λ o. o.name) s.ontologies o)
                    (Distinct-snoc (map (λ o. o.name) s.ontologies) name c.distinct_names new);
              graph = c.graph;
            })
      ]
