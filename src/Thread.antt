-- ===== src/Thread.antt =====
-- Kernel threads: pintos/src/threads/thread.c, built without USERPROG.
pub mod Fields
pub mod Create
pub mod Tick
pub mod Exit
pub mod Schedule
