-- ===== src/Tests.antt =====
-- Concrete inputs, and what the theorems say of them.
pub mod Samples
mod StorageRuns
mod GraphRuns
mod IngestionRuns
mod CoreRuns
mod RagRuns
pub mod AppRuns
pub mod ApiRuns
mod StartRuns
mod TaskRuns
mod SchemaRuns
