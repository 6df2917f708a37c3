-- ===== src/Core.antt =====
-- Security and configuration: jenezis/core.
pub mod Unicode
pub mod Prompt
pub mod Security
pub mod Connections
pub mod Config
