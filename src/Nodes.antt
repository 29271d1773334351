-- ===== src/Nodes.antt =====
-- src/agml/nodes: the node classes that give out data and that average it, with src/agml/com/message.cpp.
mod Tests
pub mod Data
pub mod Average
