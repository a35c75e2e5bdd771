-- ===== src/Engine.antt =====
-- The part of the execution engine of src/execution_engine_impl.cpp that decides when a node runs.
pub mod Tasks
pub mod Ports
pub mod Control
