-- ===== src/Thread.antt =====
-- uthread.c and uthread_ctx.c: the life of a thread.
pub mod Alloc
pub mod Life
pub mod Join
pub mod Reaper
pub mod Start
