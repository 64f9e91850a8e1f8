-- ===== src/Immix/Mutator/Soundness.antt =====
-- src/heap/immix/immix_mutator.rs: what `alloc` returns on every path, the slow ones included.
use Prim.Native.Nat.{ℕ, ◌≤◌}
use mathlib.Core.Path.{◌≡◌, refl, sym, ap, subst}
use mathlib.Core.Option.{Option, none, some}
use native.Mathlib.Omega.{arith}
use immix_rust.Prelude.{length, All}
use immix_rust.Common.Address.{Address, plus, align_up}
use immix_rust.Crossbeam.{Injector}
use immix_rust.Immix.Block.{ImmixBlock}
use immix_rust.Immix.Space.{ImmixSpace}
use immix_rust.Immix.Mutator.{ImmixMutatorLocal, Layout, Heap, take_block}
use immix_rust.Immix.Mutator.Invariant.{IsBlock, HasHole, IsBlockOf, IsHeld, IsHeap}
use immix_rust.Immix.Mutator.TakeHole.{TookHole}
use immix_rust.Immix.Mutator.Allocation.{IsLayout, align_up-layout, Allocated, fast-Allocated}

module _ (I : Injector ImmixBlock) where
  pub blocks_move :
      (start start' n n' : ℕ) (q q' : I.Queue)
      → start' ≡ start
      → n' ≡ n
      → q' ≡ q
      → All (IsBlock start n) (I.items q)
      → All (IsBlock start' n') (I.items q')
  blocks_move start start' n n' q q' e f g h = rw (e, f, g) h

  pub IsHeld-moves :
      (s s' : ImmixSpace I) (o o' : Option ImmixBlock)
      → s'.start ≡ s.start
      → length s'.line_mark_table.cells ≡ length s.line_mark_table.cells
      → o' ≡ o
      → IsHeld I s o
      → IsHeld I s' o'
  IsHeld-moves s s' none o' e f g h = rw g tt
  IsHeld-moves s s' (some b) o' e f g h = subst (IsHeld I s') (sym g) (record {
    whole = h.whole;
    inside = omega (arith, h.inside);
    place = omega (arith, h.place);
    aligned = h.aligned;
    high = h.high;
  })

  -- The invariant depends on the queues, the blocks and the number of lines only.
  pub IsHeap-of_eq :
      (h h' : Heap I)
      → h'.space.start ≡ h.space.start
      → length h'.space.line_mark_table.cells ≡ length h.space.line_mark_table.cells
      → h'.space.usable_blocks ≡ h.space.usable_blocks
      → h'.space.used_blocks ≡ h.space.used_blocks
      → h'.local.block ≡ h.local.block
      → IsHeap I h
      → IsHeap I h'
  IsHeap-of_eq h h' e f g k l v = record {
    usable_ok = blocks_move _ _ _ _ _ _ e f g v.usable_ok;
    used_ok = blocks_move _ _ _ _ _ _ e f k v.used_ok;
    held_ok = IsHeld-moves h.space h'.space h.local.block h'.local.block e f l v.held_ok;
  }

  pub TookHole-IsHeap :
      (h h' : Heap I) (b : ImmixBlock) (i r : ℕ) → IsHeap I h → TookHole I h h' b i r → IsHeap I h'
  TookHole-IsHeap h h' b i r v t =
      IsHeap-of_eq h h' (ap (λ s. s.start) t.space) t.lines.size (ap (λ s. s.usable_blocks) t.space)
        (ap (λ s. s.used_blocks) t.space) t.block v

  pub take_block-HasHole :
      (h : Heap I) (b : ImmixBlock)
      → HasHole b (take_block I h b).local h.space.line_mark_table.cells
  unfolding take_block
  take_block-HasHole h b = record {
    held = refl;
    limit = omega arith;
    low = omega arith;
    high = omega arith;
    line = omega arith;
    fresh = λ l below near. absurd (omega arith);
  }

  pub take_block-IsHeap :
      (h : Heap I) (b : ImmixBlock)
      → IsHeap I h
      → IsBlockOf I h.space b
      → IsHeap I (take_block I h b)
  unfolding take_block
  take_block-IsHeap h b v held = record {
    usable_ok = v.usable_ok;
    used_ok = v.used_ok;
    held_ok = held;
  }

  -- What `alloc` promises of the object at `addr` and of the heap behind it.
  pub record Sound (layout : Layout) (result : Address × Heap I) : Type 0 where
    pub heap : IsHeap I result.1
    pub block : ImmixBlock
    pub place : IsBlockOf I result.1.space block
    pub object : Allocated I block layout result.0 result.1

  module _ (layout : Layout) (lay : IsLayout layout) where
    pub fast-Sound :
        (h : Heap I) (b : ImmixBlock)
        → IsHeap I h
        → HasHole b h.local h.space.line_mark_table.cells
        → plus (align_up h.local.cursor layout.align) layout.size ≤ h.local.limit
        → Sound layout (
          align_up h.local.cursor layout.align,
          record h {
            local = record h.local {
              cursor = plus (align_up h.local.cursor layout.align) layout.size;
            };
          },
        )
    fast-Sound h b v hole fast =
        let place = subst (IsHeld I h.space) hole.held v.held_ok in
        record {
          heap = record { usable_ok = v.usable_ok; used_ok = v.used_ok; held_ok = v.held_ok };
          block = b;
          place = place;
          object = fast-Allocated I b layout h lay place.high hole fast;
        }

    -- Without a block the fast path fails, since the cursor and the limit are null.
    pub no_fast :
        (m : ImmixMutatorLocal)
        → m.cursor ≡ 0
        → m.limit ≡ 0
        → ¬ (plus (align_up m.cursor layout.align) layout.size ≤ m.limit)
    unfolding plus
    no_fast m c l fast =
        let (_, _, near) = align_up-layout m.cursor layout lay (omega arith) in
        omega (arith, near, lay.fits, lay.size_pos)
