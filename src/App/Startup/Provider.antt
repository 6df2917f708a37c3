-- ===== src/App/Startup/Provider.antt =====
-- Which providers the application runs with.
use jenezis.Prelude.{
  ◌≡◌, refl, ◌⊎◌, inl, inr, Bool-cases, List, Option, Text, Text_eq, text_eq, text_eq_iff, codes,
  ok, ◌>>◌, >>=-eq-ok, arith,
}
use jenezis.Ingestion.Embedder
use jenezis.Ingestion.Extractor
use jenezis.Rag.Generator
use jenezis.Storage.Graph.Schema.{Index, Database, initialize_schema}
use jenezis.App.Api.{Server}
use jenezis.App.Startup.{provision, startup}

-- The embedder is made for two of the three providers that the settings allow.
embedder_provider :
    (provider : Text) (client : Embedder.Client)
    → Embedder.init provider ≡ ok client
    → (provider ≡ codes "openai") ⊎ (provider ≡ codes "openrouter")
unfolding Embedder.init
embedder_provider provider client h = elim (Bool-cases (text_eq provider (codes "openai"))) [
  | inl same ↦ inl ((text_eq_iff provider (codes "openai")).0 same)
  | inr other ↦ elim (Bool-cases (text_eq provider (codes "openrouter"))) [
    | inl same ↦ inr ((text_eq_iff provider (codes "openrouter")).0 same)
    | inr other' ↦ absurd (ground arith)
  ]
]

extractor_provider :
    (provider : Text)
    → (provider ≡ codes "openai") ⊎ (provider ≡ codes "openrouter")
    → (client : Embedder.Client) × (Extractor.init provider ≡ ok client)
unfolding Extractor.init text_eq
extractor_provider provider (inl e) = (Embedder.openai, rw e refl)
extractor_provider provider (inr e) = (Embedder.openrouter, rw e refl)

module _ {B O : Type 0} (get_key_hash : Text → Text) (db : Database) (initial : Option Text)
    (provider : Text) (s : Server B O) (indexes : List Index) where
  -- The application starts with `openai` and `openrouter` only, of which the extractor of the worker has
  -- a client too; `anthropic`, which the settings allow, does not get past the start.
  pub startup-provider :
      (client : Generator.Client)
      → (startup get_key_hash db initial provider (s, indexes)).0 ≡ ok client
      → ((provider ≡ codes "openai") ⊎ (provider ≡ codes "openrouter"))
        × (extractor : Embedder.Client) × (Extractor.init provider ≡ ok extractor)
  unfolding startup
  startup-provider client h =
      let (_, _, made) =
        >>=-eq-ok ((provision get_key_hash initial s).0 >> (initialize_schema db indexes).0) _ h in
      let (embedder, found, _) = >>=-eq-ok (Embedder.init provider) _ made in
      let allowed = embedder_provider provider embedder found in
      let (extractor, made') = extractor_provider provider allowed in (allowed, extractor, made')
