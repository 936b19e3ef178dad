-- ===== src/Signal.antt =====
-- Signals: pintos/src/threads/signal.c.
pub mod Mask
pub mod Pending
pub mod Kill
