-- ===== src/X86/Registers.antt =====
-- crates/pliron-ll/src/x86_64/registers.rs: the register files.
use Prim.Native.String.{String}
use crabbit.Prelude.{ℕ, Bool, true, false, ◌==◌, ◌||◌, List, [], ◌∷◌}

pub data RegisterClass : Type 0 where
  gpr64 gpr32 xmm rflags : RegisterClass

-- A general-purpose register has its hardware number: rax is 0, rcx 1, rdx 2, rbx 3, rsp 4.
pub data PhysicalRegister : Type 0 where
  gpr64 : ℕ → PhysicalRegister
  gpr32 : ℕ → PhysicalRegister
  xmm : ℕ → PhysicalRegister
  rflags : PhysicalRegister

abbrev pub gpr64_names : List String
gpr64_names =
    "rax" ∷ "rcx" ∷ "rdx" ∷ "rbx" ∷ "rsp" ∷ "rbp" ∷ "rsi" ∷ "rdi" ∷ "r8" ∷ "r9" ∷ "r10" ∷ "r11"
    ∷ "r12" ∷ "r13" ∷ "r14" ∷ "r15" ∷ []

abbrev pub physical_class : PhysicalRegister → RegisterClass
physical_class (PhysicalRegister.gpr64 n) = RegisterClass.gpr64
physical_class (PhysicalRegister.gpr32 n) = RegisterClass.gpr32
physical_class (PhysicalRegister.xmm n) = RegisterClass.xmm
physical_class PhysicalRegister.rflags = RegisterClass.rflags

-- rsp and rbp frame the stack.
abbrev pub is_reserved : PhysicalRegister → Bool
is_reserved (PhysicalRegister.gpr64 n) = n == 4 || n == 5
is_reserved PhysicalRegister.rflags = true
is_reserved _ = false

pub data Register : Type 0 where
  virtual : (id : ℕ) (class : RegisterClass) → Register
  physical : PhysicalRegister → Register

abbrev pub virtual_gpr : ℕ → Register
virtual_gpr id = Register.virtual id RegisterClass.gpr64

abbrev pub gpr : ℕ → Register
gpr number = Register.physical (PhysicalRegister.gpr64 number)
