-- ===== src/Controller/Server.antt =====
-- internal/controller/server.go: the send queue of a client's connection (Queue), who gets a message
-- (Delivery), the browser's requests (Api), the pushes to the browsers (Refresh), and the connections of
-- the clients (Sessions).
pub mod Queue
pub mod Delivery
pub mod Api
pub mod Refresh
pub mod Sessions
mod Tests
