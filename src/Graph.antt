-- ===== src/Graph.antt =====
-- The behaviour tree editor: nodes and edges on a canvas, and the steps of a saved graph
-- (central_server/frontend/src/pages/ActionGraph/index.tsx, central_server/frontend/src/types/index.ts).
pub mod Types
pub mod Capability
pub mod Terminal
pub mod Collect
pub mod Save
pub mod Load
pub mod RoundTrip
pub mod Edit
pub mod Connect
pub mod Validate
pub mod Drop
mod Tests
