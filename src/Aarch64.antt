-- ===== src/Aarch64.antt =====
-- crates/pliron-ll/src/aarch64: registers, opcodes, and the binary encoding of instructions.
pub mod Registers
pub mod Condition
pub mod Opcode
pub mod Inst
pub mod Encode
pub mod Fixed
pub mod Immediate
pub mod Branch
pub mod Address
pub mod Emit
pub mod Module
mod Tests
