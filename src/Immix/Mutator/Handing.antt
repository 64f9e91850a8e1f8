-- ===== src/Immix/Mutator/Handing.antt =====
-- src/heap/immix/immix_mutator.rs: an allocator that only remembers what it has handed out, and what of
-- a heap stands for it.
pub mod Refinement
use Prim.Native.Nat.{ℕ, suc, ◌+◌, ◌-◌, ◌*◌, ◌/◌, ◌%◌, ◌^◌, ◌≤◌, ◌<◌}
use mathlib.Core.Path.{◌≡◌, refl, sym, ap, subst, ◌∙◌}
use mathlib.Core.Logic.{◌≢◌, ◌⊎◌, inl, inr}
use mathlib.Core.List.{List, [], ◌∷◌}
use mathlib.Core.Option.{some, none}
use native.Mathlib.Omega.{arith}
use native.Mathlib.Decide.{dec_lt}
use immix_rust.Prelude.{
  get_elem?, All, All-map, Outcome, ok, Ensures, Ensures-ok, Bool-cases, Option-cases,
}
use immix_rust.Common.Address.{Address, plus, align_up}
use immix_rust.Crossbeam.{Injector}
use immix_rust.Immix.Sizes.{bytes_in_line}
use immix_rust.Immix.Globals.{Mutators}
use immix_rust.Immix.Block.{ImmixBlock}
use immix_rust.Immix.LineMark.{LineMark, free, fresh_alloc}
use immix_rust.Immix.Space.{ImmixSpace, return_used_block}
use immix_rust.Immix.Space.Sweep.Lines.{within}
use immix_rust.Immix.Mutator.{Layout, Heap, return_block, take_block, alloc}
use immix_rust.Immix.Mutator.Invariant.{HasHole, idle, holding, IsBlockOf, IsHeld, IsHeap}
use immix_rust.Immix.Mutator.TakeHole.{TookHole}
use immix_rust.Immix.Mutator.Allocation.{IsLayout, align_up-layout}
use immix_rust.Immix.Mutator.Soundness.{Sound}
use immix_rust.Immix.Mutator.Parts.{IsReady, Good, Keeps, alloc-Ensures}
use immix_rust.Immix.Mutator.Paths.{fast_path}

-- The bytes `start .. start + size - 1`.
pub record Range : Type 0 where
  pub start : Address
  pub size : ℕ

abbrev pub Disjoint : Range → Range → Type 0
Disjoint a b = (a.start + a.size ≤ b.start) ⊎ (b.start + b.size ≤ a.start)

-- One allocation of the abstract allocator: it hands out any aligned memory that is disjoint from all
-- that it has handed out.
pub data Hands (layout : Layout) (addr : Address) (handed : List Range) : List Range → Type 0 where
  hand :
      addr % layout.align ≡ 0
      → All (Disjoint (record { start = addr; size = layout.size })) handed
      → Hands layout addr handed (record { start = addr; size = layout.size } ∷ handed)

module _ (I : Injector ImmixBlock) where
  -- The heap does not hand out the bytes of `a` again: they do not lie in the hole at hand, and none of
  -- their lines is free.
  pub record Owns (h : Heap I) (a : Range) : Type 0 where
    pub some_byte : 0 < a.size
    pub outside :
        (a.start + a.size ≤ h.local.cursor)
        ⊎ (h.local.limit ≤ a.start)
        ⊎ (h.local.limit ≤ h.local.cursor)
    pub taken :
        (j : ℕ)
        → a.start < h.space.start + (j + 1) * bytes_in_line
        → h.space.start + j * bytes_in_line < a.start + a.size
        → get_elem? h.space.line_mark_table.cells j ≢ some free

  -- The abstract allocator has handed out `handed`.
  pub record Refines (handed : List Range) (h : Heap I) : Type 0 where
    pub ready : IsReady I h
    pub owned : All (Owns h) handed
