-- ===== src/Immix/Mutator/Returns.antt =====
-- src/heap/immix/immix_mutator.rs: a small object fits the first hole that the mutator's block has left.
use Prim.Native.Nat.{ℕ, suc, ◌+◌, ◌*◌, ◌≤◌, ◌<◌}
use mathlib.Core.Path.{◌≡◌}
use mathlib.Core.Logic.{◌⊎◌}
use mathlib.Core.List.{List}
use mathlib.Core.Option.{Option, some}
use immix_rust.Prelude.{Outcome, ok, le→leb}
use immix_rust.Common.Address.{Address, plus, align_up}
use immix_rust.Crossbeam.{Injector}
use immix_rust.Immix.Sizes.{bytes_in_line}
use immix_rust.Immix.Block.{ImmixBlock}
use immix_rust.Immix.LineMark.Scan.{IsFreeAt}
use immix_rust.Immix.LineMark
use immix_rust.Immix.LineMark.{LineMark}
use immix_rust.Immix.Mutator.{Layout, Heap, alloc}

module _ (I : Injector ImmixBlock) (sync_barrier : Heap I → Outcome (Heap I))
    (layout : Layout) where
  -- The state after the fast path.
  abbrev pub bumped : Heap I → Heap I
  bumped h = record h {
    local = record h.local { cursor = plus (align_up h.local.cursor layout.align) layout.size };
  }

  pub alloc_fast :
      (fuel : ℕ) (h : Heap I)
      → plus (align_up h.local.cursor layout.align) layout.size ≤ h.local.limit
      → alloc I sync_barrier (suc fuel) h layout
        ≡ ok (align_up h.local.cursor layout.align, bumped h)
  unfolding alloc
  alloc_fast fuel h fast = rw (le→leb _ _ fast)

-- What `alloc` comes to where no other thread takes part: the object lies behind the old cursor in the
-- old hole, or it opens a hole of lines that were all free before. The queues stay.
pub record Local (I : Injector ImmixBlock) (b : ImmixBlock) (h h' : Heap I) (addr : Address)
    : Type 0 where
  pub place :
      ((h.local.cursor ≤ addr) × (h'.local.limit ≡ h.local.limit))
      ⊎ ((i : ℕ) × (addr ≡ b.start + i * bytes_in_line)
          × (h.local.line ≤ i)
          × (i < h'.local.line)
          × ((l : ℕ)
              → i ≤ l
              → l < h'.local.line
              → IsFreeAt h.space.line_mark_table.cells b.line_mark_table l))
  pub usable : h'.space.usable_blocks ≡ h.space.usable_blocks
  pub used : h'.space.used_blocks ≡ h.space.used_blocks
  pub block : h'.local.block ≡ some b
