-- ===== src/Client.antt =====
-- Frontend/hawkeye-web/src/lib/api/client.ts: the session state of the module, and `apiFetch`.
pub mod Session
pub mod Endpoints
