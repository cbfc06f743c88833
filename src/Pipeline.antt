-- ===== src/Pipeline.antt =====
-- backend/graph: the state of a run, its nodes and routes, and the graph that joins them.
pub mod State
pub mod Routes
pub mod Gate
pub mod Nodes
pub mod Graph
