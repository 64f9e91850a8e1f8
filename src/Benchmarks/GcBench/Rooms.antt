-- ===== src/Benchmarks/GcBench/Rooms.antt =====
-- src/rust_benchmarks/gcbench.rs: allocating nodes in a hole that has room for them.
use Prim.Native.Nat.{ℕ, suc, ◌+◌, ◌%◌, ◌≤◌, ◌<◌}
use mathlib.Core.Path.{◌≡◌, refl, sym, ap, subst, ◌∙◌}
use native.Mathlib.Omega.{arith}
use immix_rust.Prelude.{Outcome, ok}
use immix_rust.Common.Address.{Address, ObjectReference, plus, align_up}
use immix_rust.Common.Address.Align.{align_up_self}
use immix_rust.ObjectModel.{get_ref_byte}
use immix_rust.Crossbeam.{Injector}
use immix_rust.Immix.Block.{ImmixBlock}
use immix_rust.Immix.Mutator
use immix_rust.Immix.Mutator.{Layout, Heap, init_object}
use immix_rust.Immix.Mutator.Returns.{alloc_fast}
use immix_rust.Gc.Roots.Valid.{IsMapped}
use immix_rust.Gc.Roots.Objects.{init_object-described}
use immix_rust.Benchmarks.GcBench.{NodeType, World, alloc}

-- The two pointers are aligned words of the node, one behind the other.
pub record IsNodeType (node : NodeType) : Type 0 where
  pub left : node.left + 8 ≤ node.right
  pub right : node.right + 8 ≤ node.size
  pub whole : node.size % 8 ≡ 0

module _ (I : Injector ImmixBlock) where
  -- The byte that describes the object at `p`.
  abbrev pub ref_byte : World I → ObjectReference → Outcome ℕ
  ref_byte w p = get_ref_byte w.heap.space.alloc_map.ptr w.heap.space.start p

  -- The mutator's hole has room for `bytes` more bytes.
  pub record HasRoom (bytes : ℕ) (w : World I) : Type 0 where
    pub mapped : IsMapped I w.heap.space
    pub known : w.heap.local.space_start ≡ w.heap.space.start
    pub aligned : w.heap.local.cursor % 8 ≡ 0
    pub low : w.heap.space.start ≤ w.heap.local.cursor
    pub room : w.heap.local.cursor + bytes ≤ w.heap.local.limit
    pub high : w.heap.local.limit ≤ w.heap.space.end

  pub HasRoom-of_eq : {m n : ℕ} {w : World I} → m ≡ n → HasRoom m w → HasRoom n w
  HasRoom-of_eq {w} e v = subst (λ k. HasRoom k w) e v

  -- From `w` to `w'` the mutator has handed out `bytes` bytes of its hole; what was there before is as
  -- it was.
  pub record Built (bytes : ℕ) (w w' : World I) : Type 0 where
    pub cursor : w'.heap.local.cursor ≡ w.heap.local.cursor + bytes
    pub start : w'.heap.space.start ≡ w.heap.space.start
    pub described :
        (p : ObjectReference)
        → w.heap.space.start ≤ p
        → p + 8 ≤ w.heap.local.cursor
        → ref_byte w' p ≡ ref_byte w p
    pub words : (a : Address) → a < w.heap.local.cursor → w'.memory a ≡ w.memory a

  pub Built-trans : {m n : ℕ} {u v w : World I} → Built m u v → Built n v w → Built (m + n) u w
  Built-trans b c = record {
    cursor = omega (arith, b.cursor, c.cursor);
    start = c.start ∙ b.start;
    described = λ p lo hi.
        c.described p (omega (arith, b.start)) (omega (arith, b.cursor)) ∙ b.described p lo hi;
    words = λ a lt. c.words a (omega (arith, b.cursor)) ∙ b.words a lt;
  }

  module _ (sync_barrier : Heap I → Outcome (Heap I)) (node : NodeType) (shape : IsNodeType node)
      (fuel bytes : ℕ) (w : World I) (v : HasRoom (node.size + bytes) w) where
    abbrev layout : Layout
    layout = record { size = node.size; align = 8 }

    start_aligned : align_up w.heap.local.cursor 8 ≡ w.heap.local.cursor
    start_aligned =
        align_up_self w.heap.local.cursor 3 (omega arith)
          (omega (arith, v.room, v.high, v.mapped.low, shape.left, shape.right)) v.aligned

    end_moves : plus w.heap.local.cursor node.size ≡ w.heap.local.cursor + node.size
    unfolding plus
    end_moves = omega (arith, v.room, v.high, v.mapped.low)

    abbrev moved : Heap I
    moved = record w.heap {
      local = record w.heap.local { cursor = w.heap.local.cursor + node.size };
    }

    alloc-moved :
        Mutator.alloc I sync_barrier (suc fuel) w.heap layout ≡ ok (w.heap.local.cursor, moved)
    alloc-moved =
        alloc_fast I sync_barrier layout fuel w.heap
          (rw (start_aligned, end_moves) (omega (arith, v.room)))
        ∙ rw (start_aligned, end_moves) refl

    alloc-of_init :
        (h' : Heap I)
        → init_object I moved w.heap.local.cursor 195 ≡ ok h'
        → alloc I sync_barrier node (suc fuel) w ≡ ok (w.heap.local.cursor, record w { heap = h' })
    unfolding alloc
    alloc-of_init h' run = rw (alloc-moved, run) refl

    -- `alloc` returns the next address of the hole, describes a node there, and leaves the rest of the
    -- room.
    pub alloc-Built :
        (w' : World I) × (alloc I sync_barrier node (suc fuel) w ≡ ok (w.heap.local.cursor, w'))
        × Built node.size w w'
        × HasRoom bytes w'
        × (ref_byte w' w.heap.local.cursor ≡ ok 195)
    alloc-Built =
        let inside : (w.heap.space.start ≤ w.heap.local.cursor)
            × (w.heap.local.cursor < w.heap.space.end) =
          (v.low, omega (arith, v.room, v.high, shape.left, shape.right)) in
        let (h', run, byte, valid, others, same, mapped) =
          init_object-described I moved v.mapped v.known w.heap.local.cursor inside 195 in
        let cursor : h'.local.cursor ≡ w.heap.local.cursor + node.size =
          ap (λ h. h.local.cursor) same in
        let limit : h'.local.limit ≡ w.heap.local.limit = ap (λ h. h.local.limit) same in
        let start : h'.space.start ≡ w.heap.space.start = ap (λ h. h.space.start) same in
        let end : h'.space.end ≡ w.heap.space.end = ap (λ h. h.space.end) same in
        let known : h'.local.space_start ≡ w.heap.local.space_start =
          ap (λ h. h.local.space_start) same in
        (
          record w { heap = h' },
          alloc-of_init h' run,
          record {
            cursor = cursor;
            start = start;
            described = λ p lo hi.
                (others p (lo, omega (arith, inside)) (λ e. absurd (omega (arith, e, lo, hi)))).0;
            words = λ a lt. refl;
          },
          record {
            mapped = mapped;
            known = known ∙ v.known ∙ sym start;
            aligned = omega (arith, cursor, v.aligned, shape.whole);
            low = omega (arith, cursor, start, v.low);
            room = omega (arith, cursor, limit, v.room);
            high = omega (arith, limit, end, v.high);
          },
          byte,
        )
