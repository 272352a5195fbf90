-- ===== src/Layout/Funcs.antt =====
-- crates/pliron-ll/src/passes/aarch64/aarch64_encode.rs, `run`: the functions and the literals of a
-- module stand in the image where the offsets say.
use Prim.Native.String.{String}
use mathlib.Core.Path.{subst}
use text.Mathlib.Text.{◌==◌ as str_eq}
use text.Mathlib.TextEquality.{eq_iff}
use crabbit.Prelude.{ℕ, ◌+◌, ◌≡◌, refl, sym, ◌∙◌, ap, arith, length, length-append}
use crabbit.Prelude.{true, false, some, List, [], ◌∷◌, ◌++◌}
use crabbit.Prelude.Result.{ok, >>=-eq-ok, ok-injective}
use crabbit.Layout.{
  NameMap, Encoded, Target, FuncOp, Layout, insert_name, no_blocks, code_size, block_offsets,
  encode_func, encode_funcs, lay_out, collect_literals, refs_with,
}
use crabbit.Layout.Size.{encode_blocks-code_size}
use crabbit.Layout.Pieces.{StandsIn, StandsIn-first, StandsIn-later}

abbrev pub concat : List (List ℕ) → List ℕ
concat [] = []
concat (code ∷ codes) = code ++ concat codes

-- No function has a name.
abbrev pub FreshName : {Op : Type 0} → String → List (FuncOp Op) → Type 0
FreshName name [] = Unit
FreshName name (f ∷ funcs) = (str_eq f.name name ≡ false) × FreshName name funcs

module _ {Op Fixup : Type 0} (t : Target Op Fixup) where
  encode_func-code_size :
      (functions literals : NameMap) (pc : ℕ) (f : FuncOp Op) (e : Encoded Fixup)
      → encode_func t functions literals pc f ≡ ok e
      → code_size t f.blocks ≡ ok (length e.bytes)
  encode_func-code_size functions literals pc f e run =
      let (out, map, code) = >>=-eq-ok (block_offsets t no_blocks pc f.blocks) _ run in
      encode_blocks-code_size t (refs_with t functions literals out) f.blocks pc e code

  -- The first loop after a function, as the second one has encoded it.
  abbrev pub after_func : Layout → FuncOp Op → ℕ → Layout
  after_func l f n = record {
    offsets = insert_name f.name l.next_offset l.offsets;
    literals = collect_literals t f.blocks l.literals;
    next_offset = l.next_offset + n;
  }

  lay_out-after_func :
      (l out : Layout) (f : FuncOp Op) (funcs : List (FuncOp Op)) (n : ℕ)
      → lay_out t l (f ∷ funcs) ≡ ok out
      → code_size t f.blocks ≡ ok n
      → lay_out t (after_func l f n) funcs ≡ ok out
  unfolding lay_out
  lay_out-after_func l out f funcs n run size = rw size at run

  lay_out-FreshName :
      (l out : Layout) (funcs : List (FuncOp Op)) (name : String)
      → lay_out t l funcs ≡ ok out
      → FreshName name funcs
      → out.offsets name ≡ l.offsets name
  unfolding lay_out
  lay_out-FreshName l out [] name run fresh =
      ap (λ (m : Layout). m.offsets name) (sym (ok-injective l out run))
  lay_out-FreshName l out (f ∷ funcs) name run (other, fresh) =
      let (n, size, rest) = >>=-eq-ok (code_size t f.blocks) _ run in
      lay_out-FreshName (after_func l f n) out funcs name rest fresh ∙ rw other refl

  module _ (functions literals : NameMap) where
    -- A function is encoded at the place that the map has for it, where its code stands in that of
    -- the module.
    pub record FuncPlaced (pc : ℕ) (codes : List (List ℕ)) (offsets : NameMap) (f : FuncOp Op)
        : Type 0 where
      pub place : ℕ
      pub code : Encoded Fixup
      pub mapped : offsets f.name ≡ some place
      pub encoded : encode_func t functions literals place f ≡ ok code
      pub stands : StandsIn pc (concat codes) place code.bytes

    pub encode_funcs-FuncPlaced :
        (before : List (FuncOp Op)) (f : FuncOp Op) (later : List (FuncOp Op)) (l out : Layout)
        (r : List (List ℕ) × List Fixup)
        → FreshName f.name later
        → lay_out t l (before ++ (f ∷ later)) ≡ ok out
        → encode_funcs t functions literals l.next_offset (before ++ (f ∷ later)) ≡ ok r
        → FuncPlaced l.next_offset r.0 out.offsets f
    unfolding encode_funcs
    encode_funcs-FuncPlaced [] f later l out r fresh map run =
        let pc = l.next_offset in
        let (e, run_e, rest_run) = >>=-eq-ok (encode_func t functions literals pc f) _ run in
        let (rest, run_rest, r_ok) =
          >>=-eq-ok (encode_funcs t functions literals (pc + length e.bytes) later) _ rest_run in
        let size = encode_func-code_size functions literals pc f e run_e in
        let self : str_eq f.name f.name ≡ true = (eq_iff f.name f.name).1 refl in
        subst (λ (v : List (List ℕ) × List Fixup). FuncPlaced pc v.0 out.offsets f)
          (ok-injective (e.bytes ∷ rest.0, e.fixups ++ rest.1) r r_ok)
          (record {
            place = pc;
            code = e;
            mapped =
                lay_out-FreshName (after_func l f (length e.bytes)) out later f.name
                  (lay_out-after_func l out f later (length e.bytes) map size) fresh
                ∙ rw self refl;
            encoded = run_e;
            stands = StandsIn-first pc e.bytes (concat rest.0);
          })
    encode_funcs-FuncPlaced (g ∷ before) f later l out r fresh map run =
        let pc = l.next_offset in
        let (e, run_e, rest_run) = >>=-eq-ok (encode_func t functions literals pc g) _ run in
        let (rest, run_rest, r_ok) =
          >>=-eq-ok
            (encode_funcs t functions literals (pc + length e.bytes) (before ++ (f ∷ later))) _
            rest_run in
        let size = encode_func-code_size functions literals pc g e run_e in
        let n = length e.bytes in
        let p =
          encode_funcs-FuncPlaced before f later (after_func l g n) out rest fresh
            (lay_out-after_func l out g (before ++ (f ∷ later)) n map size) run_rest in
        subst (λ (v : List (List ℕ) × List Fixup). FuncPlaced pc v.0 out.offsets f)
          (ok-injective (e.bytes ∷ rest.0, e.fixups ++ rest.1) r r_ok)
          (record {
            place = p.place;
            code = p.code;
            mapped = p.mapped;
            encoded = p.encoded;
            stands = StandsIn-later pc p.place e.bytes (concat rest.0) p.code.bytes p.stands;
          })

    -- The first loop ends where the code does.
    pub encode_funcs-next_offset :
        (funcs : List (FuncOp Op)) (l out : Layout) (r : List (List ℕ) × List Fixup)
        → lay_out t l funcs ≡ ok out
        → encode_funcs t functions literals l.next_offset funcs ≡ ok r
        → out.next_offset ≡ l.next_offset + length (concat r.0)
    unfolding encode_funcs lay_out
    encode_funcs-next_offset [] l out r map run =
        let none : [] ≡ r.0 =
          ap (λ (v : List (List ℕ) × List Fixup). v.0) (ok-injective ([], []) r run) in
        let same : l.next_offset ≡ out.next_offset =
          ap (λ (m : Layout). m.next_offset) (ok-injective l out map) in
        rw (sym none) (omega (arith, same))
    encode_funcs-next_offset (f ∷ funcs) l out r map run =
        let pc = l.next_offset in
        let (e, run_e, rest_run) = >>=-eq-ok (encode_func t functions literals pc f) _ run in
        let (rest, run_rest, r_ok) =
          >>=-eq-ok (encode_funcs t functions literals (pc + length e.bytes) funcs) _ rest_run in
        let n = length e.bytes in
        let size = encode_func-code_size functions literals pc f e run_e in
        let later =
          encode_funcs-next_offset funcs (after_func l f n) out rest
            (lay_out-after_func l out f funcs n map size) run_rest in
        subst
          (λ (v : List (List ℕ) × List Fixup).
            out.next_offset ≡ l.next_offset + length (concat v.0))
          (ok-injective (e.bytes ∷ rest.0, e.fixups ++ rest.1) r r_ok)
          (omega (arith, later, length-append e.bytes (concat rest.0)))
