-- ===== src/App/Api/Linkless.antt =====
-- What the running system writes of its knowledge graph.
use jenezis.Prelude.{◌≡◌, [], Eq, ℕ_eq}
use jenezis.Storage.Rows.{Value_eq}
use jenezis.Storage.Graph.{Graph}
use jenezis.App.Tasks.Process.Unlinked.{HasTextIds}

module _ {O : Type 0} ⦃e : Eq O⦄ where
  -- A graph of documents, chunks and entities that nothing relates, whose entities have texts for
  -- identifiers.
  pub record IsLinkless (g : Graph O) : Type 0 where
    pub text_ids : HasTextIds g
    pub no_relations : g.relations ≡ []
    pub no_mentions : g.mentions ≡ []
