-- ===== src/Core/Prompt.antt =====
-- jenezis/core/prompt_security.py.
pub mod Escape
pub mod Sanitize
pub mod Schema
pub mod Output
pub mod Regex
pub mod Patterns
pub mod Context
