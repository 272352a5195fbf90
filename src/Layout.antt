-- ===== src/Layout.antt =====
-- crates/pliron-ll/src/passes/aarch64/aarch64_encode.rs and
-- crates/pliron-ll/src/passes/x86_64_darwin/x86_64_encode.rs: the pass that lays a module out and
-- encodes it, which is the same code for both targets. An operation that is no instruction is
-- neither counted nor encoded, and is left out.
pub mod Size
pub mod Pieces
pub mod Blocks
pub mod Literals
pub mod Collect
pub mod Funcs
pub mod Ops
pub mod Module
use Prim.Native.Nat.{Ordering}
use Prim.Native.String.{String, compare}
use text.Mathlib.Text.{◌==◌ as str_eq}
use crabbit.Prelude.{ℕ, ◌+◌, ◌==◌, ◌≡◌, if◌then◌else◌, length, Bool}
use crabbit.Prelude.{Option, none, some, List, [], ◌∷◌, ◌++◌}
use crabbit.Prelude.Result.{Result, ok, ◌>>=◌}

-- A basic block, by its place in the IR's arena.
abbrev pub Block : Type 0
Block = ℕ

-- A map is the function that looks a key up.
abbrev pub BlockMap : Type 0
BlockMap = Block → Option ℕ

abbrev pub NameMap : Type 0
NameMap = String → Option ℕ

abbrev pub insert_block : Block → ℕ → BlockMap → BlockMap
insert_block block place offsets b = if block == b then some place else offsets b

abbrev pub insert_name : String → ℕ → NameMap → NameMap
insert_name name place offsets n = if str_eq name n then some place else offsets n

abbrev pub no_blocks : BlockMap
no_blocks b = none

abbrev pub no_names : NameMap
no_names n = none

-- `BinarySerializationContext` and `BinaryEncoding`, for either target.
pub record Refs : Type 0 where
  pub function_offsets : NameMap
  pub block_offsets : BlockMap
  pub literal_offsets : NameMap

pub record Encoded (Fixup : Type 0) : Type 0 where
  pub bytes : List ℕ
  pub fixups : List Fixup

-- `BinarySerializableOpInterface`, with the block that follows the operation's own in the layout,
-- and what the layout relies on: an operation has the length that it is counted with.
pub record Target (Op Fixup : Type 0) : Type 0 where
  pub byte_len : Option Block → Op → Result ℕ
  pub literal : Op → Option (String × List ℕ)
  pub encode_binary : Option Block → Op → ℕ → Refs → Result (Encoded Fixup)
  pub counted :
      (next : Option Block) (op : Op) (pc : ℕ) (refs : Refs) (e : Encoded Fixup)
      → encode_binary next op pc refs ≡ ok e
      → byte_len next op ≡ ok (length e.bytes)

pub record BasicBlock (Op : Type 0) : Type 0 where
  pub block : Block
  pub ops : List Op

pub record FuncOp (Op : Type 0) : Type 0 where
  pub name : String
  pub blocks : List (BasicBlock Op)

-- The literals of a module by their labels, in the labels' order: a `BTreeMap`.
abbrev pub Literals : Type 0
Literals = List (String × List ℕ)

-- `entry(label).or_insert(bytes)`
unfoldable pub or_insert : String → List ℕ → Literals → Literals
or_insert label bytes [] = (label, bytes) ∷ []
or_insert label bytes ((l, b) ∷ literals) = elim (compare label l) [
  | Ordering.lt ↦ (label, bytes) ∷ (l, b) ∷ literals
  | Ordering.eq ↦ (l, b) ∷ literals
  | Ordering.gt ↦ (l, b) ∷ or_insert label bytes literals
]

-- The offsets of the literals, and their bytes, on those before them.
unfoldable pub place_literals : ℕ → NameMap → List ℕ → Literals → NameMap × List ℕ
place_literals next_offset offsets bytes [] = (offsets, bytes)
place_literals next_offset offsets bytes ((label, b) ∷ literals) =
    place_literals next_offset (insert_name label (next_offset + length bytes) offsets) (bytes ++ b)
      literals

-- What the first loop over the functions has found.
pub record Layout : Type 0 where
  pub offsets : NameMap
  pub literals : Literals
  pub next_offset : ℕ

-- What the pass leaves: the bytes of each function, those of the literals, and the fixups.
pub record Image (Fixup : Type 0) : Type 0 where
  pub codes : List (List ℕ)
  pub literal_bytes : List ℕ
  pub fixups : List Fixup

abbrev pub next_block : {Op : Type 0} → List (BasicBlock Op) → Option Block
next_block [] = none
next_block (b ∷ blocks) = some b.block

module _ {Fixup : Type 0} where
  abbrev pub no_code : Encoded Fixup
  no_code = record { bytes = []; fixups = [] }

  abbrev pub extended : Encoded Fixup → Encoded Fixup → Encoded Fixup
  extended e rest = record { bytes = e.bytes ++ rest.bytes; fixups = e.fixups ++ rest.fixups }

module _ {Op Fixup : Type 0} (t : Target Op Fixup) where
  unfoldable pub block_size : Option Block → List Op → Result ℕ
  block_size next [] = ok 0
  block_size next (op ∷ ops) = t.byte_len next op >>= λ n. block_size next ops >>= λ m. ok (n + m)

  unfoldable pub code_size : List (BasicBlock Op) → Result ℕ
  code_size [] = ok 0
  code_size (b ∷ blocks) =
      block_size (next_block blocks) b.ops >>= λ n. code_size blocks >>= λ m. ok (n + m)

  -- On the offsets of the blocks before.
  unfoldable pub block_offsets : BlockMap → ℕ → List (BasicBlock Op) → Result BlockMap
  block_offsets offsets next_offset [] = ok offsets
  block_offsets offsets next_offset (b ∷ blocks) = block_size (next_block blocks) b.ops >>= λ n.
      block_offsets (insert_block b.block next_offset offsets) (next_offset + n) blocks

  abbrev pub or_insert_literal : Option (String × List ℕ) → Literals → Literals
  or_insert_literal none literals = literals
  or_insert_literal (some (label, bytes)) literals = or_insert label bytes literals

  unfoldable pub collect_ops : List Op → Literals → Literals
  collect_ops [] literals = literals
  collect_ops (op ∷ ops) literals = collect_ops ops (or_insert_literal (t.literal op) literals)

  unfoldable pub collect_literals : List (BasicBlock Op) → Literals → Literals
  collect_literals [] literals = literals
  collect_literals (b ∷ blocks) literals = collect_literals blocks (collect_ops b.ops literals)

  -- The first loop: where each function will stand.
  unfoldable pub lay_out : Layout → List (FuncOp Op) → Result Layout
  lay_out l [] = ok l
  lay_out l (f ∷ funcs) = code_size f.blocks >>= λ n.
      lay_out
        (record {
          offsets = insert_name f.name l.next_offset l.offsets;
          literals = collect_literals f.blocks l.literals;
          next_offset = l.next_offset + n;
        })
        funcs

  -- The operations of a block from a place on.
  unfoldable pub encode_ops : Option Block → Refs → ℕ → List Op → Result (Encoded Fixup)
  encode_ops next refs pc [] = ok no_code
  encode_ops next refs pc (op ∷ ops) = t.encode_binary next op pc refs >>= λ e.
      encode_ops next refs (pc + length e.bytes) ops >>= λ rest. ok (extended e rest)

  unfoldable pub encode_blocks : Refs → ℕ → List (BasicBlock Op) → Result (Encoded Fixup)
  encode_blocks refs pc [] = ok no_code
  encode_blocks refs pc (b ∷ blocks) = encode_ops (next_block blocks) refs pc b.ops >>= λ e.
      encode_blocks refs (pc + length e.bytes) blocks >>= λ rest. ok (extended e rest)

  abbrev pub refs_with : NameMap → NameMap → BlockMap → Refs
  refs_with functions literals blocks = record {
    function_offsets = functions;
    block_offsets = blocks;
    literal_offsets = literals;
  }

  abbrev pub encode_func : NameMap → NameMap → ℕ → FuncOp Op → Result (Encoded Fixup)
  encode_func functions literals function_offset f =
      block_offsets no_blocks function_offset f.blocks >>= λ blocks.
      encode_blocks (refs_with functions literals blocks) function_offset f.blocks

  -- The second loop: the code of each function, and the fixups of all.
  unfoldable pub encode_funcs :
      NameMap → NameMap → ℕ → List (FuncOp Op) → Result (List (List ℕ) × List Fixup)
  encode_funcs functions literals function_offset [] = ok ([], [])
  encode_funcs functions literals function_offset (f ∷ funcs) =
      encode_func functions literals function_offset f >>= λ e.
      encode_funcs functions literals (function_offset + length e.bytes) funcs >>= λ rest.
      ok (e.bytes ∷ rest.0, e.fixups ++ rest.1)

  unfoldable pub encode_module : List (FuncOp Op) → Result (Image Fixup)
  encode_module funcs =
      lay_out (record { offsets = no_names; literals = []; next_offset = 0 }) funcs >>= λ l.
      let (literals, bytes) = place_literals l.next_offset no_names [] l.literals in
      encode_funcs l.offsets literals 0 funcs >>= λ e.
      ok (record { codes = e.0; literal_bytes = bytes; fixups = e.1 })
