-- ===== src/Midend.antt =====
-- The mid-end of crates/pliron-ll/src/passes/llvm: integer constants and their folding
-- (simplify.rs), and the strength reduction of divisions (div_strength_reduce.rs).
pub mod Const
pub mod Fold
pub mod Magic
pub mod DivReduce
pub mod Partial
mod Tests
