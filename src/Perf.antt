-- ===== src/Perf.antt =====
-- The structures of include/nan_perf.h.
pub mod Queue
pub mod Spsc
pub mod Fifo
pub mod Interleaved
pub mod Reorder
pub mod Station
pub mod Deadlock
pub mod Cycle
mod Tests
