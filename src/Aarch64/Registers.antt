-- ===== src/Aarch64/Registers.antt =====
-- crates/pliron-ll/src/aarch64/registers.rs: the register files, and the hardware numbers that
-- crates/pliron-ll/src/aarch64/encoding.rs reads from them (`xreg`, `freg`, `qreg`).
use crabbit.Prelude.{ℕ, Bool, true, false, ◌==◌, ◌||◌, Option}
use crabbit.Prelude.Result.{Result, ok, panic, unwrap, ◌>>=◌}

pub data RegisterClass : Type 0 where
  gpr64 gpr32 fpr64 fpr32 simd128 nzcv : RegisterClass

pub data PhysicalRegister : Type 0 where
  gpr64 : ℕ → PhysicalRegister
  gpr32 : ℕ → PhysicalRegister
  fpr64 : ℕ → PhysicalRegister
  fpr32 : ℕ → PhysicalRegister
  simd128 : ℕ → PhysicalRegister
  sp nzcv : PhysicalRegister

abbrev pub physical_class : PhysicalRegister → RegisterClass
physical_class (PhysicalRegister.gpr64 n) = RegisterClass.gpr64
physical_class PhysicalRegister.sp = RegisterClass.gpr64
physical_class (PhysicalRegister.gpr32 n) = RegisterClass.gpr32
physical_class (PhysicalRegister.fpr64 n) = RegisterClass.fpr64
physical_class (PhysicalRegister.fpr32 n) = RegisterClass.fpr32
physical_class (PhysicalRegister.simd128 n) = RegisterClass.simd128
physical_class PhysicalRegister.nzcv = RegisterClass.nzcv

abbrev pub is_reserved : PhysicalRegister → Bool
is_reserved PhysicalRegister.sp = true
is_reserved PhysicalRegister.nzcv = true
is_reserved (PhysicalRegister.gpr64 n) = n == 18 || n == 29 || n == 30
is_reserved _ = false

pub data Register : Type 0 where
  virtual : (id : ℕ) (class : RegisterClass) → Register
  physical : PhysicalRegister → Register

abbrev pub register_class : Register → RegisterClass
register_class (Register.virtual id class) = class
register_class (Register.physical r) = physical_class r

abbrev pub gpr : ℕ → Register
gpr number = Register.physical (PhysicalRegister.gpr64 number)

-- Any other register is a Rust panic.
unfoldable pub xreg : Register → Result ℕ
xreg (Register.physical (PhysicalRegister.gpr64 number)) = ok number
xreg _ = panic

unfoldable pub freg : Register → Result ℕ
freg (Register.physical (PhysicalRegister.fpr64 number)) = ok number
freg (Register.physical (PhysicalRegister.fpr32 number)) = ok number
freg _ = panic

unfoldable pub qreg : Register → Result ℕ
qreg (Register.physical (PhysicalRegister.simd128 number)) = ok number
qreg _ = panic

-- The number of an operand, which has to be there.
abbrev pub number : (Register → Result ℕ) → Option Register → Result ℕ
number file operand = unwrap operand >>= file
