-- ===== src/Tests.antt =====
-- Concrete runs of the modelled program.
mod Data
mod Sessions
mod Hooks
mod Suites
mod Pages
mod Editing
mod Workspaces
mod SigningIn
