-- ===== src/Profile.antt =====
-- crates/pliron-bpgo: matching the operations of a function before and after a pass.
pub mod Align
