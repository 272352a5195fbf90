-- ===== src/Layout/Size.antt =====
-- crates/pliron-ll/src/passes/aarch64/aarch64_encode.rs, `code_size` against the bytes that are
-- emitted.
use crabbit.Prelude.{ℕ, ◌+◌, ◌≡◌, sym, ap, length, length-append, Option, List, [], ◌∷◌}
use crabbit.Prelude.Result.{ok, >>=-eq-ok, ok-injective}
use crabbit.Layout.{
  Block, Refs, Encoded, Target, BasicBlock, block_size, code_size, encode_ops, encode_blocks,
  next_block, no_code, extended,
}

module _ {Op Fixup : Type 0} (t : Target Op Fixup) (refs : Refs) where
  pub encode_ops-block_size :
      (next : Option Block) (ops : List Op) (pc : ℕ) (e : Encoded Fixup)
      → encode_ops t next refs pc ops ≡ ok e
      → block_size t next ops ≡ ok (length e.bytes)
  unfolding encode_ops block_size
  encode_ops-block_size next [] pc e run =
      ap (λ (c : Encoded Fixup). ok (length c.bytes)) (ok-injective no_code e run)
  encode_ops-block_size next (op ∷ ops) pc e run =
      let (o, run_o, rest_run) = >>=-eq-ok (t.encode_binary next op pc refs) _ run in
      let (rest, run_rest, e_ok) =
        >>=-eq-ok (encode_ops t next refs (pc + length o.bytes) ops) _ rest_run in
      rw
        (
          t.counted next op pc refs o run_o,
          encode_ops-block_size next ops (pc + length o.bytes) rest run_rest,
          sym (length-append o.bytes rest.bytes),
        )
        (ap (λ (c : Encoded Fixup). ok (length c.bytes)) (ok-injective (extended o rest) e e_ok))

  pub encode_blocks-code_size :
      (blocks : List (BasicBlock Op)) (pc : ℕ) (e : Encoded Fixup)
      → encode_blocks t refs pc blocks ≡ ok e
      → code_size t blocks ≡ ok (length e.bytes)
  unfolding encode_blocks code_size
  encode_blocks-code_size [] pc e run =
      ap (λ (c : Encoded Fixup). ok (length c.bytes)) (ok-injective no_code e run)
  encode_blocks-code_size (b ∷ blocks) pc e run =
      let next = next_block blocks in
      let (o, run_o, rest_run) = >>=-eq-ok (encode_ops t next refs pc b.ops) _ run in
      let (rest, run_rest, e_ok) =
        >>=-eq-ok (encode_blocks t refs (pc + length o.bytes) blocks) _ rest_run in
      rw
        (
          encode_ops-block_size next b.ops pc o run_o,
          encode_blocks-code_size blocks (pc + length o.bytes) rest run_rest,
          sym (length-append o.bytes rest.bytes),
        )
        (ap (λ (c : Encoded Fixup). ok (length c.bytes)) (ok-injective (extended o rest) e e_ok))
