-- ===== src/Immix/Mutator/Invariant.antt =====
-- What holds of a mutator and its space between two calls of the allocator.
use Prim.Native.Nat.{ℕ, ◌+◌, ◌*◌, ◌%◌, ◌^◌, ◌≤◌, ◌<◌}
use mathlib.Core.Path.{◌≡◌, refl}
use mathlib.Core.List.{List, [], ◌∷◌}
use mathlib.Core.Option.{Option, none, some}
use immix_rust.Prelude.{length, get_elem?, All, All-append}
use immix_rust.Crossbeam.{Injector}
use immix_rust.Immix.Sizes.{bytes_in_line, bytes_in_block, lines_in_block}
use immix_rust.Immix.Block.{ImmixBlock}
use immix_rust.Immix.LineMark.{LineMark, fresh_alloc}
use immix_rust.Immix.Space.{ImmixSpace}
use immix_rust.Immix.Mutator.{ImmixMutatorLocal, Heap, return_block}

-- A block of a space that starts at `origin`, and whose line mark table has `n` cells. User memory
-- ends far below `2 ^ 63`.
pub record IsBlock (origin n : ℕ) (b : ImmixBlock) : Type 0 where
  pub whole : b.line_mark_table.len ≡ lines_in_block
  pub inside : b.line_mark_table.base + lines_in_block ≤ n
  pub place : b.start ≡ origin + b.line_mark_table.base * bytes_in_line
  pub aligned : b.start % bytes_in_line ≡ 0
  pub high : b.start + bytes_in_block < 2 ^ 63

-- The memory that the mutator may still hand out lies in its block, and on lines that it has marked.
pub record HasHole (b : ImmixBlock) (m : ImmixMutatorLocal) (cells : List LineMark) : Type 0 where
  pub held : m.block ≡ some b
  pub limit : m.limit ≡ b.start + m.line * bytes_in_line
  pub low : b.start ≤ m.cursor
  pub high : m.cursor ≤ m.limit
  pub line : m.line ≤ lines_in_block
  pub fresh :
      (l : ℕ)
      → l < m.line
      → m.cursor < b.start + (l + 1) * bytes_in_line
      → get_elem? cells (b.line_mark_table.base + l) ≡ some fresh_alloc

pub data IsLocal (m : ImmixMutatorLocal) (cells : List LineMark) : Type 0 where
  idle : m.cursor ≡ 0 → m.limit ≡ 0 → m.block ≡ none → m.line ≡ lines_in_block → IsLocal m cells
  holding : (b : ImmixBlock) → HasHole b m cells → IsLocal m cells

module _ (I : Injector ImmixBlock) where
  abbrev pub IsBlockOf : ImmixSpace I → ImmixBlock → Type 0
  IsBlockOf s = IsBlock s.start (length s.line_mark_table.cells)

  abbrev pub IsHeld : ImmixSpace I → Option ImmixBlock → Type 0
  IsHeld s none = Unit
  IsHeld s (some b) = IsBlockOf s b

  pub record IsHeap (h : Heap I) : Type 0 where
    pub usable_ok : All (IsBlockOf h.space) (I.items h.space.usable_blocks)
    pub used_ok : All (IsBlockOf h.space) (I.items h.space.used_blocks)
    pub held_ok : IsHeld h.space h.local.block

  pub return_block-IsHeap : (h : Heap I) → IsHeap h → IsHeap (return_block I h)
  unfolding return_block
  return_block-IsHeap h v = by_block h.local.block v.held_ok refl
    where
      by_block :
          (o : Option ImmixBlock) → IsHeld h.space o → h.local.block ≡ o → IsHeap (return_block I h)
      by_block none held e = rw (e, return_block) v
      by_block (some b) held e =
          rw (e, return_block)
            (record {
              usable_ok = v.usable_ok;
              used_ok = rw (I.items-push h.space.used_blocks b) (
                  All-append (IsBlockOf h.space) (I.items h.space.used_blocks) (b ∷ []) v.used_ok
                    (held, tt));
              held_ok = tt;
            })
