-- ===== src/Graph.antt =====
-- knowledge_graph/*.py: the artifacts of the graph, with the checks that their constructors make.
pub mod Kinds
pub mod Time
pub mod Models
