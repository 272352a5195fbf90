-- ===== src/Lib.antt =====
-- crabbit: a code generator for rustc. This library models parts of its code generation crate
-- crates/pliron-ll: constant folding and the strength reduction of divisions in the mid-end, the
-- dominators of a control-flow graph, the binary encoders of AArch64 and of x86-64 instructions, and
-- the passes that lay a module out and encode it; and of crates/pliron-bpgo the matching of
-- operations.
--
-- Prelude: names and lemmas that the parts share. Prelude/Bits.antt has `|` and `&` of words as
-- arithmetic, Prelude/Result.antt the outcome of an encoder (a value, an error or a panic), and
-- Prelude/Int.antt the signed integers of the source's i64 distances,
-- Prelude/Words.antt Rust's operators on words, and Prelude/Commute.antt their symmetry.
--
-- Midend: crates/pliron-ll/src/passes/llvm.
--   Const, Fold: simplify.rs, `ConstOperand`, `mask_to_width`, `sign_extend`, `fold_int_binary`,
--   `fold_icmp` and `fold_int_cast`. A `Value` is the tree of the operations that define it over
--   one unknown operand, and `value` folds it. An i128 is its pattern below 2 ^ 128.
--   Partial: simplify.rs, `simplify_partial_const`. The tree that takes the operation's place is
--   returned, and `none` where the source returns false. Partial/Zero, Partial/Rewrites and
--   Partial/Inner have the value of each rewrite, Partial/Preserves that of all of them.
--   Magic: div_strength_reduce.rs, `magic_unsigned` and `magic_signed`. The unsigned loop runs on a
--   fuel of width + 1, which is enough since p grows from width - 1 and the loop stops when it is
--   2 * width; the signed one on a fuel of 2 * width, by which the quotient, which doubles in
--   every round, is above the divisor (Magic/Rounds). Magic/Signed leads from it to the division by
--   a positive number.
--   Magic/Unsigned, Magic/Loop, Magic/Correct and Magic/Exact lead from the loop to the division.
--   DivReduce: div_strength_reduce.rs, `rewrite_div`, `expand*` and `emit_*`. The pass inserts
--   operations before the division and then replaces it; here the tree is returned, and `none`
--   where the division is left. DivReduce/Emit, DivReduce/Mulh, DivReduce/Unsigned and
--   DivReduce/Rewrite give its value. The search of a function for divisions (`run`) is not
--   modelled, since it only calls `rewrite_div` on each one.
--
-- Aarch64: crates/pliron-ll/src/aarch64.
--   Registers, Condition: registers.rs and attributes.rs. Condition/Flags has the architecture's
--   meaning of a condition.
--   Opcode, Inst: the rows of ops.rs, and what an encoder reads from an operation, with the block
--   that follows its own in the layout; op_interfaces.rs. A map of offsets is a function.
--   Encode, Fixed, Immediate: encoding.rs, the encoders of one word and `encode_fixed_inst`. Their
--   `None` is the error that `encode_inst` makes of it, and an operand that is missing or of
--   another register file is a panic. Encode/Fields, Encode/Memory, Encode/Lanes and Encode/Select
--   read the words back.
--   Branch, Address: encoding.rs, branches, calls and pc-relative addresses. Offsets are below
--   2 ^ 63. Branch/Machine and Address/Reach define the few instructions of the architecture that
--   these are made of; Branch/Words and Branch/Reach lead to where a branch goes,
--   Address/Calls to where a call goes.
--   Emit: encoding.rs, `encode_inst` and `byte_len`.
--
-- Dom: crates/pliron-ll/src/passes/dominance_frontier.rs, `immediate_dominators` and
--   `intersect_idoms`, on lists of predecessors. A vector is the function that reads it, and a
--   missing link is a panic. The loops of `intersect_idoms` run on the sum of the two blocks as
--   fuel, which Dom/Tree shows to be enough; running out would be a panic too. `turns` is the
--   outer loop on fuel of the caller, for which one turn more than there are blocks is enough, by
--   Dom/Exact. Dom/Pass, Dom/Nearest and Dom/Turn are about one turn, Dom/Sound about a turn that
--   changes nothing, Dom/Paths counts the edges of a path that do not lead to a later block,
--   Dom/Limits and Dom/Advance show that each turn settles the paths with one such edge more, and
--   Dom/Acyclic (on Dom/Agree) is about graphs without a loop, where two turns are enough. A
--   predecessor that is no block is passed over, where the source panics. The traversal
--   that orders the blocks works on the IR, and the frontiers are not modelled.
--
-- X86: crates/pliron-ll/src/x86_64.
--   Registers, Condition, Opcode, Inst: registers.rs, attributes.rs, the rows of ops.rs, and
--   op_interfaces.rs, as for AArch64. Condition/Flags has the architecture's meaning of a code.
--   Bytes, Encode: encoding.rs. What a helper pushes on the output is the list it returns;
--   `encode_into` is the clauses of `encode_inst`, one for each opcode. Sizing passes no offsets,
--   as in the source. Encode/Length has `inst_len` against `encode_inst`.
--   Machine: a processor for the register instructions, on bytes, with Machine/Decode and
--   Machine/Execute. It runs on as much fuel as there are bytes, and every instruction takes
--   some. Arith, Arith/Expand, Arith/Shift, Arith/Divide and Arith/SignedDivide are about the
--   expansions of the three-address operations.
--   Branch: the processor on branches and calls; Branch/Displacement and Branch/Jump.
--   Memory: the processor on the operand of a store or load.
--   Offsets are below 2 ^ 63. What is run is the bytes of one operation.
--   Placement: crates/pliron-ll/src/passes/x86_64_darwin/x86_64_block_placement.rs. Flow has the
--   branches of a block, Chain the edges and the greedy order, on the rounds that are left. The
--   frequencies are a parameter, a function of the edges. Placement/Once, Placement/Order and
--   Placement/Edges are about the order; Placement/Processor runs a block on any state, and
--   Placement/Branches, Placement/Inverted and Placement/Simplify show that it goes where it went;
--   Placement/Blocks and Placement/Keeps put the two together.
--
-- Layout: crates/pliron-ll/src/passes/aarch64/aarch64_encode.rs and
--   crates/pliron-ll/src/passes/x86_64_darwin/x86_64_encode.rs, which are the same code over two
--   sets of operations. `Target` is what they use of an operation, with the law that its encoding
--   has the length that it is counted with; Aarch64/Module and X86/Module fill it from the encoders,
--   and have the modules of the source's own tests. A function is a list of blocks, a block a list
--   of instructions, and a map of offsets the function that reads it. `lay_out` is the first loop
--   of `run`, `encode_funcs` the second one; what the source pushes on its bytes is the list that
--   is returned. Layout/Size, Layout/Blocks, Layout/Ops and Layout/Funcs lead to Layout/Module, and
--   Layout/Literals and Layout/Collect are about the literals. Aarch64/Module/Edges joins the layout
--   to the encoding of branches.
--
-- Profile: crates/pliron-bpgo/src/align.rs, `matching`. The flat table is the list of its rows, and
--   the two indexes of the second loop are followed by what is left of the two lists. Align/Common
--   has the recursive specification, Align/Table the table, Align/Longest the two loops.
--
-- Not modelled: the IR that the passes walk (a library), the importer, instruction selection and
-- register allocation, object files, NVPTX, profiles, configuration and tests.
pub mod Prelude
pub mod Midend
pub mod Aarch64
pub mod X86
pub mod Dom
pub mod Layout
pub mod Profile
