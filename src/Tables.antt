-- ===== src/Tables.antt =====
-- The tables of runs of the project dashboard and of the artifacts page.
pub mod Pages
pub mod Runs
pub mod Report
pub mod Avatar
