-- ===== src/Controller/Orchestrator.antt =====
-- internal/controller/orchestrator.go and participants.go, by what the methods are for.
pub mod State
pub mod Settings
pub mod Selection
pub mod Lifecycle
pub mod Snapshot
pub mod Run
mod Tests
