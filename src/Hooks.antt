-- ===== src/Hooks.antt =====
-- Frontend/hawkeye-web/src/lib/api/hooks.ts: the polling and streaming hooks.
pub mod ProjectRuns
pub mod RunList
pub mod Polling
pub mod TraceStream
pub mod RunActions
