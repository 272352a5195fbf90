-- ===== src/Layout/Module.antt =====
-- crates/pliron-ll/src/passes/aarch64/aarch64_encode.rs, `run`: where the blocks and the literals
-- of a module stand in its image.
use Prim.Native.String.{String}
use mathlib.Core.Path.{subst}
use mathlib.Core.List.{append-nil}
use crabbit.Prelude.{ℕ, ◌≡◌, sym, ◌∙◌, ap}
use crabbit.Prelude.{some, inl, inr, List, [], ◌∷◌, ◌++◌, ◌⊎◌}
use crabbit.Prelude.Result.{ok, >>=-eq-ok, ok-injective}
use crabbit.Layout.{
  NameMap, BlockMap, Target, BasicBlock, FuncOp, Image, Layout, no_blocks, no_names, code_size,
  block_offsets, encode_funcs, encode_module, lay_out, place_literals, refs_with,
}
use crabbit.Layout.Pieces.{StandsIn, StandsIn-inner}
use crabbit.Layout.Blocks.{Distinct, Placed, encode_func-Placed}
use crabbit.Layout.Literals.{Present, Consistent, place_literals-Stored}
use crabbit.Layout.Collect.{
  BlocksFrom, InBlocks, collect_literals-Present, collect_literals-found,
  collect_literals-Consistent,
}
use crabbit.Layout.Funcs.{
  concat, FreshName, FuncPlaced, after_func, encode_funcs-FuncPlaced, encode_funcs-next_offset,
}

-- Before the first loop.
abbrev pub nothing : Layout
nothing = record { offsets = no_names; literals = []; next_offset = 0 }

abbrev pub literal_map : Layout → NameMap
literal_map l = (place_literals l.next_offset no_names [] l.literals).0

module _ {Op Fixup : Type 0} (t : Target Op Fixup) where
  -- What an image was made of.
  record Made (funcs : List (FuncOp Op)) (image : Image Fixup) : Type 0 where
    map : Layout
    laid_out : lay_out t nothing funcs ≡ ok map
    result : List (List ℕ) × List Fixup
    encoded : encode_funcs t map.offsets (literal_map map) 0 funcs ≡ ok result
    codes : image.codes ≡ result.0
    fixups : image.fixups ≡ result.1
    stored : image.literal_bytes ≡ (place_literals map.next_offset no_names [] map.literals).1

  made :
      (funcs : List (FuncOp Op)) (image : Image Fixup)
      → encode_module t funcs ≡ ok image
      → Made funcs image
  unfolding encode_module
  made funcs image run =
      let (map, laid_out, rest) = >>=-eq-ok (lay_out t nothing funcs) _ run in
      let literals = place_literals map.next_offset no_names [] map.literals in
      let (r, encoded, image_ok) =
        >>=-eq-ok (encode_funcs t map.offsets literals.0 0 funcs) _ rest in
      let same =
        ok-injective (record { codes = r.0; literal_bytes = literals.1; fixups = r.1 }) image
          image_ok in
      record {
        map = map;
        laid_out = laid_out;
        result = r;
        encoded = encoded;
        codes = ap (λ (i : Image Fixup). i.codes) (sym same);
        fixups = ap (λ (i : Image Fixup). i.fixups) (sym same);
        stored = ap (λ (i : Image Fixup). i.literal_bytes) (sym same);
      }

  -- A block of a function stands in the image where the offsets of its function, with which the
  -- function was encoded, say.
  pub record BlockPlaced (map : Layout) (codes : List (List ℕ)) (f : FuncOp Op) (b : BasicBlock Op)
      (later : List (BasicBlock Op)) : Type 0 where
    pub func : FuncPlaced t map.offsets (literal_map map) 0 codes map.offsets f
    pub out : BlockMap
    pub mapped : block_offsets t no_blocks func.place f.blocks ≡ ok out
    pub placed :
        Placed t (refs_with t map.offsets (literal_map map) out) func.place func.code out b later
    pub stands : StandsIn 0 (concat codes) placed.place placed.code.bytes

  -- In a module that is encoded every function stands in the image where the offsets, by which
  -- calls are encoded, say, and every block of it where the offsets of the blocks say, encoded for
  -- that place, with the block that follows it where it ends.
  pub encode_module-BlockPlaced :
      (funcs before_f : List (FuncOp Op)) (f : FuncOp Op) (later_f : List (FuncOp Op))
      (before : List (BasicBlock Op)) (b : BasicBlock Op) (later : List (BasicBlock Op))
      (image : Image Fixup)
      → encode_module t funcs ≡ ok image
      → funcs ≡ before_f ++ (f ∷ later_f)
      → FreshName f.name later_f
      → f.blocks ≡ before ++ (b ∷ later)
      → Distinct f.blocks
      → (map : Layout) × (lay_out t nothing funcs ≡ ok map) × BlockPlaced map image.codes f b later
  encode_module-BlockPlaced funcs before_f f later_f before b later image run split fresh split_b
        distinct =
      let m = made funcs image run in
      let literals = literal_map m.map in
      let p =
        encode_funcs-FuncPlaced t m.map.offsets literals before_f f later_f nothing m.map m.result
          fresh (subst (λ fs. lay_out t nothing fs ≡ ok m.map) split m.laid_out)
          (subst (λ fs. encode_funcs t m.map.offsets literals 0 fs ≡ ok m.result) split
            m.encoded) in
      let (out, mapped, q) =
        encode_func-Placed t m.map.offsets literals p.place f p.code before b later split_b distinct
          p.encoded in
      (
        m.map,
        m.laid_out,
        subst (λ codes. BlockPlaced m.map codes f b later) (sym m.codes)
            (record {
              func = p;
              out = out;
              mapped = mapped;
              placed = q;
              stands =
                  StandsIn-inner 0 p.place q.place (concat m.result.0) p.code.bytes q.code.bytes
                    p.stands q.stands;
            }),
      )

  -- The literals of all functions.
  abbrev pub FuncsFrom : (String → List ℕ) → List (FuncOp Op) → Type 0
  FuncsFrom bytes_of [] = Unit
  FuncsFrom bytes_of (f ∷ funcs) = BlocksFrom t bytes_of f.blocks × FuncsFrom bytes_of funcs

  abbrev pub InFuncs : String → List (FuncOp Op) → Type 0
  InFuncs label [] = ⊥
  InFuncs label (f ∷ funcs) = InBlocks t label f.blocks ⊎ InFuncs label funcs

  lay_out-Consistent :
      (bytes_of : String → List ℕ) (funcs : List (FuncOp Op)) (l out : Layout)
      → lay_out t l funcs ≡ ok out
      → FuncsFrom bytes_of funcs
      → Consistent bytes_of l.literals
      → Consistent bytes_of out.literals
  unfolding lay_out
  lay_out-Consistent bytes_of [] l out run from all =
      subst (λ (m : Layout). Consistent bytes_of m.literals) (ok-injective l out run) all
  lay_out-Consistent bytes_of (f ∷ funcs) l out run (e, from) all =
      let (n, size, rest) = >>=-eq-ok (code_size t f.blocks) _ run in
      lay_out-Consistent bytes_of funcs (after_func t l f n) out rest from
        (collect_literals-Consistent t bytes_of f.blocks l.literals e all)

  lay_out-Present :
      (funcs : List (FuncOp Op)) (l out : Layout) (label : String)
      → lay_out t l funcs ≡ ok out
      → Present label l.literals
      → Present label out.literals
  unfolding lay_out
  lay_out-Present [] l out label run present =
      subst (λ (m : Layout). Present label m.literals) (ok-injective l out run) present
  lay_out-Present (f ∷ funcs) l out label run present =
      let (n, size, rest) = >>=-eq-ok (code_size t f.blocks) _ run in
      lay_out-Present funcs (after_func t l f n) out label rest
        (collect_literals-Present t f.blocks l.literals label present)

  lay_out-found :
      (funcs : List (FuncOp Op)) (l out : Layout) (label : String)
      → lay_out t l funcs ≡ ok out
      → InFuncs label funcs
      → Present label out.literals
  unfolding lay_out
  lay_out-found [] l out label run found = elim found [ ]
  lay_out-found (f ∷ funcs) l out label run (inl found) =
      let (n, size, rest) = >>=-eq-ok (code_size t f.blocks) _ run in
      lay_out-Present funcs (after_func t l f n) out label rest
        (collect_literals-found t f.blocks l.literals label found)
  lay_out-found (f ∷ funcs) l out label run (inr found) =
      let (n, size, rest) = >>=-eq-ok (code_size t f.blocks) _ run in
      lay_out-found funcs (after_func t l f n) out label rest found

  -- In a module that is encoded, whose operations agree on the bytes of each label, the codes and
  -- the fixups of the image are those of the functions encoded with the offsets of the literals,
  -- and the label of every operation's literal has an offset among these where its bytes stand, in
  -- the code with the literals after it.
  pub encode_module-Stored :
      (bytes_of : String → List ℕ) (funcs : List (FuncOp Op)) (label : String) (image : Image Fixup)
      → encode_module t funcs ≡ ok image
      → FuncsFrom bytes_of funcs
      → InFuncs label funcs
      → (map : Layout) × (lay_out t nothing funcs ≡ ok map)
        × (encode_funcs t map.offsets (literal_map map) 0 funcs ≡ ok (image.codes, image.fixups))
        × (place : ℕ) × (literal_map map label ≡ some place)
        × StandsIn 0 (concat image.codes ++ image.literal_bytes) place (bytes_of label)
  encode_module-Stored bytes_of funcs label image run from found =
      let m = made funcs image run in
      let base = m.map.next_offset in
      let (place, mapped, stands) =
        place_literals-Stored bytes_of base m.map.literals no_names [] label
          (lay_out-Consistent bytes_of funcs nothing m.map m.laid_out from tt)
          (lay_out-found funcs nothing m.map label m.laid_out found) in
      let end =
        encode_funcs-next_offset t m.map.offsets (literal_map m.map) funcs nothing m.map m.result
          m.laid_out m.encoded in
      let bytes = (place_literals base no_names [] m.map.literals).1 in
      let code = concat m.result.0 in
      let after_code : StandsIn 0 (code ++ bytes) base bytes = record {
        before = code;
        after = [];
        split = ap (λ (c : List ℕ). code ++ c) (sym (append-nil bytes));
        reached = end;
      } in
      (
        m.map,
        m.laid_out,
        m.encoded
            ∙ ap (λ (r : List (List ℕ) × List Fixup). ok r)
                (ap (λ (codes : List (List ℕ)). (codes, m.result.1)) (sym m.codes)
                  ∙ ap (λ (fixups : List Fixup). (image.codes, fixups)) (sym m.fixups)),
        place,
        mapped,
        subst (λ (c : List ℕ). StandsIn 0 c place (bytes_of label))
            (ap (λ (c : List ℕ). code ++ c) (sym m.stored)
              ∙ ap (λ (cs : List (List ℕ)). concat cs ++ image.literal_bytes) (sym m.codes))
            (StandsIn-inner 0 base place (code ++ bytes) bytes (bytes_of label) after_code stands),
      )
