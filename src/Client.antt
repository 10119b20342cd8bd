-- ===== src/Client.antt =====
-- internal/client: what a client does for the controller's commands.
pub mod Pace
pub mod Ledger
pub mod Stats
pub mod Bandwidth
pub mod Creation
pub mod Deletion
pub mod RandomIo
pub mod Paths
pub mod Software
pub mod Worker
pub mod Agent
