-- ===== src/Aot.antt =====
-- The code generator of src/nan_aot_compiler.cpp over the IR of include/nan_aot_compiler.h.
pub mod Ir
pub mod Generate
pub mod Layout
pub mod Patch
pub mod Run
mod Tests
pub mod Correct
pub mod Parse
pub mod Parsed
pub mod Program
pub mod Say
pub mod Registers
