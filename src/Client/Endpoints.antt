-- ===== src/Client/Endpoints.antt =====
-- The calls of `apiClient`, lib/api/client.ts.
pub mod Route
pub mod Runs
pub mod Projects
pub mod Suites
pub mod Settings
pub mod Accounts
pub mod Calls
