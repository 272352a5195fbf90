-- ===== src/X86.antt =====
-- crates/pliron-ll/src/x86_64: registers, opcodes, and the binary encoding of instructions.
pub mod Registers
pub mod Condition
pub mod Opcode
pub mod Inst
pub mod Bytes
pub mod Encode
pub mod Machine
pub mod Branch
pub mod Arith
pub mod Memory
pub mod Module
pub mod Placement
mod Tests
