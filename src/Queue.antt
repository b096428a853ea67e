-- ===== src/Queue.antt =====
-- The message and task queues of the three subsystems: a `std::deque` behind a mutex each.
pub mod Deque
pub mod Fifo
pub mod Interface
pub mod Inner
pub mod Algo
pub mod Json
mod Tests
