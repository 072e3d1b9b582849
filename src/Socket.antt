-- ===== src/Socket.antt =====
-- The connection to the server's messages and who listens to them (contexts/WebSocketContext.tsx). A
-- callback is known by its identity, a text; the subscribers of one kind of message are a map from
-- graphs to sets of callbacks.
pub mod Subscribers
pub mod Connection
pub mod Routes
mod Tests
