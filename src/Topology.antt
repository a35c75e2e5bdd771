-- ===== src/Topology.antt =====
-- Peeling the nodes of in-degree 0 off a directed graph, apart from how the graph is stored. The loops of
-- src/graph.cpp and include/ai_pipe/compiled_graph.hpp are instances.
pub mod Counting
pub mod Peel
pub mod Order
