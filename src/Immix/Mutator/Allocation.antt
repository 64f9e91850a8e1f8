-- ===== src/Immix/Mutator/Allocation.antt =====
-- src/heap/immix/immix_mutator.rs: what the allocator hands out.
use Prim.Native.Nat.{ℕ, ◌+◌, ◌*◌, ◌%◌, ◌^◌, ◌≤◌, ◌<◌}
use mathlib.Core.Path.{◌≡◌, sym}
use mathlib.Core.Option.{some}
use native.Mathlib.Omega.{arith}
use immix_rust.Prelude.{get_elem?}
use immix_rust.Common.Address.{Address, plus, align_up, usize_mod}
use immix_rust.Common.Address.Align.{align_up-least, align_up-lt}
use immix_rust.Crossbeam.{Injector}
use immix_rust.Immix.Sizes.{bytes_in_line, bytes_in_block}
use immix_rust.Immix.Block.{ImmixBlock}
use immix_rust.Immix.LineMark.{fresh_alloc}
use immix_rust.Immix.Mutator.{Layout, Heap}
use immix_rust.Immix.Mutator.Invariant.{HasHole}

-- What a `Layout` guarantees, for an object that is not empty: the alignment is a power of two, and
-- the size, rounded up to it, fits `isize`.
pub record IsLayout (layout : Layout) : Type 0 where
  pub log_align : ℕ
  pub power : layout.align ≡ 2 ^ log_align
  pub small : log_align < 63
  pub size_pos : 0 < layout.size
  pub fits : layout.size + layout.align ≤ 2 ^ 63

pub align_up-layout :
    (cursor : ℕ) (layout : Layout)
    → IsLayout layout
    → cursor < 2 ^ 63
    → (align_up cursor layout.align % layout.align ≡ 0)
      × (cursor ≤ align_up cursor layout.align)
      × (align_up cursor layout.align < cursor + layout.align)
align_up-layout cursor layout lay low =
    let fits : cursor + 2 ^ lay.log_align ≤ usize_mod = omega (arith, lay.power, lay.fits) in
    let (whole, above, _) = align_up-least cursor lay.log_align (omega (arith, lay.small)) fits in
    rw lay.power (whole, above, align_up-lt cursor lay.log_align (omega (arith, lay.small)) fits)

module _ (I : Injector ImmixBlock) where
  -- The object at `addr` is aligned and lies in the block `b`, below the cursor and behind nothing that
  -- is still to be handed out, and all of its lines are marked as fresh.
  pub record Allocated (b : ImmixBlock) (layout : Layout) (addr : Address) (h : Heap I)
      : Type 0 where
    pub hole : HasHole b h.local h.space.line_mark_table.cells
    pub aligned : addr % layout.align ≡ 0
    pub start : b.start ≤ addr
    pub end : addr + layout.size ≡ h.local.cursor
    pub fresh :
        (l : ℕ)
        → l < h.local.line
        → addr < b.start + (l + 1) * bytes_in_line
        → get_elem? h.space.line_mark_table.cells (b.line_mark_table.base + l) ≡ some fresh_alloc

  pub fast-Allocated :
      (b : ImmixBlock) (layout : Layout) (h : Heap I)
      → IsLayout layout
      → b.start + bytes_in_block < 2 ^ 63
      → HasHole b h.local h.space.line_mark_table.cells
      → plus (align_up h.local.cursor layout.align) layout.size ≤ h.local.limit
      → Allocated b layout (align_up h.local.cursor layout.align) (record h {
        local = record h.local { cursor = plus (align_up h.local.cursor layout.align) layout.size };
      })
  unfolding plus
  fast-Allocated b layout h lay high hole fast =
      let a = align_up h.local.cursor layout.align in
      let (whole, above, near) =
        align_up-layout h.local.cursor layout lay (omega (arith, hole.limit)) in
      let end : (a + layout.size) % usize_mod ≡ a + layout.size =
        omega (arith, lay.fits, hole.limit) in
      record {
        hole = record {
          held = hole.held;
          limit = hole.limit;
          low = rw end (omega arith);
          high = fast;
          line = hole.line;
          fresh = λ l below near'. hole.fresh l below (omega (arith, end, near', above));
        };
        aligned = whole;
        start = omega arith;
        end = sym end;
        fresh = λ l below near'. hole.fresh l below (omega (arith, near', above));
      }
