-- ===== src/Controller.antt =====
-- internal/controller: the registry of clients, the metrics store, the orchestrator of runs,
-- its configuration file, and the server.
pub mod Registry
pub mod Metrics
pub mod Orchestrator
pub mod ConfigFile
pub mod Server
