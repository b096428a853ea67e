-- ===== src/Algo.antt =====
-- The camera and algorithm commands, ipsCtl/: their names and numbers, the hash maps from one to the
-- other, and the functions that queue a command as a task with the mode flags beside it.
pub mod Names
pub mod HashMap
pub mod Assign
mod Tests
