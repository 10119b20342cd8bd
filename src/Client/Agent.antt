-- ===== src/Client/Agent.antt =====
-- internal/client/agent.go: the connection of a client to the controller.
pub mod Reporting
pub mod Commands
mod Tests
