-- ===== src/Graph/Load.antt =====
-- Loading: the steps of a saved graph become the nodes and edges of the canvas
-- (`convertActionGraphToGraph` of pages/ActionGraph/index.tsx). Its children build the end states and
-- the node of a step (Load/EndStates, Load/Nodes), the retry block (Load/Retry) and the edges (Load/Edges).
pub mod EndStates
pub mod Nodes
pub mod Retry
pub mod Edges
pub mod Build
pub mod Sources
