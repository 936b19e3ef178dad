-- ===== src/Tests.antt =====
-- Concrete kernels, evaluations of the code on them, and the theorems at concrete inputs.
mod Machine
mod Signals
mod Bitmaps
mod Threads
mod Texts
mod Lists
mod Pages
mod Queues
mod Sectors
mod Locks
mod Archives
mod Blocks
mod Tables
