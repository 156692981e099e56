-- ===== src/Tests.antt =====
-- Concrete machines, and the theorems applied to them.
pub mod Machine
pub mod Queues
pub mod Scheduling
pub mod Blocking
pub mod Threads
pub mod Invariants
pub mod Races
pub mod Programs
