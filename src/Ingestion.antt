-- ===== src/Ingestion.antt =====
-- The ingestion pipeline's steps: jenezis/ingestion.
pub mod Records
pub mod Chunker
pub mod Validator
pub mod Parser
pub mod Embedder
pub mod Extractor
pub mod Resolver
