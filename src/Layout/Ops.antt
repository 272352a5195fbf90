-- ===== src/Layout/Ops.antt =====
-- crates/pliron-ll/src/passes/aarch64/aarch64_encode.rs, `run`: the last operation of a block.
use mathlib.Core.Path.{subst}
use mathlib.Core.List.{append_assoc, append-nil}
use crabbit.Prelude.{ℕ, ◌+◌, ◌≡◌, refl, sym, ◌∙◌, ap, arith, length, length-append, Option, some}
use crabbit.Prelude.{List, [], ◌∷◌, ◌++◌}
use crabbit.Prelude.Result.{Result, ok, ◌>>=◌, >>=-eq-ok, ok-injective}
use crabbit.Layout.{
  Block, BlockMap, Refs, Encoded, Target, BasicBlock, block_size, encode_ops, next_block, no_code,
  extended,
}
use crabbit.Layout.Size.{encode_ops-block_size}
use crabbit.Layout.Pieces.{StandsIn, StandsIn-inner}
use crabbit.Layout.Blocks.{Placed, NextAt}

module _ {Op Fixup : Type 0} (t : Target Op Fixup) (refs : Refs) (next : Option Block) where
  -- The last operation is encoded where the code before it ends.
  pub record LastAt (pc : ℕ) (first : List Op) (op : Op) (e : Encoded Fixup) : Type 0 where
    pub code : Encoded Fixup
    pub run : encode_ops t next refs pc first ≡ ok code
    pub last : Encoded Fixup
    pub encoded : t.encode_binary next op (pc + length code.bytes) refs ≡ ok last
    pub split : e.bytes ≡ code.bytes ++ last.bytes

  pub encode_ops-LastAt :
      (first : List Op) (op : Op) (pc : ℕ) (e : Encoded Fixup)
      → encode_ops t next refs pc (first ++ (op ∷ [])) ≡ ok e
      → LastAt pc first op e
  unfolding encode_ops
  encode_ops-LastAt [] op pc e run =
      let (o, run_o, e_ok) = >>=-eq-ok (t.encode_binary next op pc refs) _ run in
      let same : pc ≡ pc + 0 = omega arith in
      record {
        code = no_code;
        run = refl;
        last = o;
        encoded = subst (λ (p : ℕ). t.encode_binary next op p refs ≡ ok o) same run_o;
        split =
            ap (λ (c : Encoded Fixup). c.bytes) (sym (ok-injective (extended o no_code) e e_ok))
            ∙ append-nil o.bytes;
      }
  encode_ops-LastAt (a ∷ first) op pc e run =
      let (o, run_o, rest_run) = >>=-eq-ok (t.encode_binary next a pc refs) _ run in
      let (rest, run_rest, e_ok) =
        >>=-eq-ok (encode_ops t next refs (pc + length o.bytes) (first ++ (op ∷ []))) _ rest_run in
      let l = encode_ops-LastAt first op (pc + length o.bytes) rest run_rest in
      let same : pc + length o.bytes + length l.code.bytes ≡ pc + length (o.bytes ++ l.code.bytes) =
        omega (arith, length-append o.bytes l.code.bytes) in
      record {
        code = extended o l.code;
        run = both (t.encode_binary next a pc refs) o l.code run_o l.run;
        last = l.last;
        encoded = subst (λ (p : ℕ). t.encode_binary next op p refs ≡ ok l.last) same l.encoded;
        split =
            ap (λ (c : Encoded Fixup). c.bytes) (sym (ok-injective (extended o rest) e e_ok))
            ∙ ap (λ (c : List ℕ). o.bytes ++ c) l.split
            ∙ sym (append_assoc o.bytes l.code.bytes l.last.bytes);
      }
    where
      both :
          (r : Result (Encoded Fixup)) (o code : Encoded Fixup)
          → r ≡ ok o
          → encode_ops t next refs (pc + length o.bytes) first ≡ ok code
          → (r >>= λ o.
              encode_ops t next refs (pc + length o.bytes) first >>= λ c. ok (extended o c))
            ≡ ok (extended o code)
      both r o code e_r e_rest = rw (e_r, e_rest) refl

module _ {Op Fixup : Type 0} (t : Target Op Fixup) where
  -- The last operation of a block stands in the code of the function, and the next block follows.
  pub record LastPlaced (refs : Refs) (pc : ℕ) (e : Encoded Fixup) (out : BlockMap)
      (b : BasicBlock Op) (later : List (BasicBlock Op)) (first : List Op) (op : Op) : Type 0 where
    pub start : ℕ
    pub mapped : out b.block ≡ some start
    pub size : ℕ
    pub counted : block_size t (next_block later) first ≡ ok size
    pub code : Encoded Fixup
    pub encoded : t.encode_binary (next_block later) op (start + size) refs ≡ ok code
    pub stands : StandsIn pc e.bytes (start + size) code.bytes
    pub follows : NextAt t out later (start + size + length code.bytes)

  pub Placed-LastPlaced :
      (refs : Refs) (pc : ℕ) (e : Encoded Fixup) (out : BlockMap) (b : BasicBlock Op)
      (later : List (BasicBlock Op)) (first : List Op) (op : Op)
      → b.ops ≡ first ++ (op ∷ [])
      → Placed t refs pc e out b later
      → LastPlaced refs pc e out b later first op
  Placed-LastPlaced refs pc e out b later first op e_ops p =
      let next = next_block later in
      let l =
        encode_ops-LastAt t refs next first op p.place p.code
          (subst (λ ops. encode_ops t next refs p.place ops ≡ ok p.code) e_ops p.encoded) in
      let inner : StandsIn p.place p.code.bytes (p.place + length l.code.bytes) l.last.bytes =
        record {
          before = l.code.bytes;
          after = [];
          split = l.split ∙ ap (λ (c : List ℕ). l.code.bytes ++ c) (sym (append-nil l.last.bytes));
          reached = refl;
        } in
      let end : p.place + length p.code.bytes
          ≡ p.place + length l.code.bytes + length l.last.bytes =
        omega (arith, ap length l.split, length-append l.code.bytes l.last.bytes) in
      record {
        start = p.place;
        mapped = p.mapped;
        size = length l.code.bytes;
        counted = encode_ops-block_size t refs next first p.place l.code l.run;
        code = l.last;
        encoded = l.encoded;
        stands = StandsIn-inner pc p.place _ e.bytes p.code.bytes l.last.bytes p.stands inner;
        follows = subst (λ (n : ℕ). NextAt t out later n) end p.follows;
      }
