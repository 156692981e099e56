-- ===== src/Invariant.antt =====
-- The invariant of the run queue, and the operations of the library.
pub mod Wake
pub mod Choice
pub mod Blocking
pub mod Life
pub mod Turn
