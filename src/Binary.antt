-- ===== src/Binary.antt =====
-- The byte-stream tools of include/nan_binary.h and the passes of include/nan_compiler.h.
pub mod Pack
pub mod Code
pub mod Patch
pub mod Search
pub mod Catalog
pub mod Passes
mod Tests
