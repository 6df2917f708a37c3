-- ===== src/App.antt =====
-- The example application: examples/fastapi_app.
pub mod Filename
pub mod Upload
pub mod Tasks
pub mod Api
pub mod Startup
