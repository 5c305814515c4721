-- ===== src/Kernel.antt =====
-- The kernel's value containers, packages/kernel/src/primitives.
pub mod Result
pub mod Option
pub mod Either
mod Tests
