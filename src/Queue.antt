-- ===== src/Queue.antt =====
-- src/lock_free_queue.hpp: the ring buffer, and the node queue with its drop policies.
pub mod Capacity
pub mod Ring
pub mod Node
