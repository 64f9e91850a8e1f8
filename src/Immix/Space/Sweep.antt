-- ===== src/Immix/Space/Sweep.antt =====
-- src/heap/immix/immix_space.rs: `sweep`. The counts and prints of a debug build are left out, but
-- for the two counts that the code tests.
pub mod Lines
pub mod Blocks
pub mod Loop
pub mod Total
pub mod Unique
use Prim.Native.Nat.{ℕ, zero, suc, ◌+◌}
use mathlib.Core.Bool.{Bool, true, false, not}
use mathlib.Core.List.{List, [], ◌∷◌, foldl}
use immix_rust.Prelude.{
  Outcome, ok, err, out_of_fuel, panicked, ◌>>=◌, ◌>>◌, check, ◌==◌, if◌then◌else◌,
}
use immix_rust.Crossbeam.{Injector, empty, success, retry}
use immix_rust.Immix.Sizes.{usable, full}
use immix_rust.Immix.Block.{ImmixBlock, set_state}
use immix_rust.Immix.LineMark.{LineMark, free, is_live, LineMarkTableSlice, slice_get, slice_set}
use immix_rust.Immix.Space.{ImmixSpace}

-- The `for` loop over the lines of one block, from line `i` on, with the rounds that are left. The
-- result says whether some line is free now.
unfoldable pub sweep_lines :
    ℕ → LineMarkTableSlice → ℕ → List LineMark → Bool → Outcome (Bool × List LineMark)
unfolding slice_get slice_set
sweep_lines zero s i cells has_free_lines = ok (has_free_lines, cells)
sweep_lines (suc rounds) s i cells has_free_lines = do
  mark ← slice_get cells s i
  cells' ← if is_live mark then ok cells else slice_set cells s i free
  sweep_lines rounds s (i + 1) cells' (if is_live mark then has_free_lines else true)

module _ (I : Injector ImmixBlock) where
  -- The variables of the loop over the blocks.
  pub record Sweeping : Type 0 where
    pub cells : List LineMark
    pub usable_queue : I.Queue
    pub used_queue : I.Queue
    pub live_blocks : List ImmixBlock
    pub usable_blocks : ℕ
    pub full_blocks : ℕ

  -- Where a block goes once its lines are swept.
  unfoldable pub file_block : Sweeping → ImmixBlock → Bool → Sweeping
  file_block w block has_free_lines =
      if has_free_lines
      then record w {
        usable_queue = I.push w.usable_queue (set_state usable block);
        usable_blocks = w.usable_blocks + 1;
      }
      else record w {
        live_blocks = set_state full block ∷ w.live_blocks;
        full_blocks = w.full_blocks + 1;
      }

  unfoldable pub sweep_block : Sweeping → ImmixBlock → Outcome Sweeping
  unfolding sweep_lines file_block
  sweep_block w block = do
    let slice = block.line_mark_table
    (has_free_lines, cells) ← sweep_lines slice.len slice 0 w.cells false
    ok (file_block (record w { cells = cells }) block has_free_lines)

  unfoldable pub sweep_loop : ℕ → Sweeping → Outcome Sweeping
  unfolding sweep_block
  sweep_loop zero w = err out_of_fuel
  sweep_loop (suc fuel) w =
      let (stolen, queue) = I.steal w.used_queue in
      let w' = record w { used_queue = queue } in
      elim stolen [
        | empty ↦ ok w'
        | success block ↦ sweep_block w' block >>= sweep_loop fuel
        | retry ↦ sweep_loop fuel w'
      ]

  abbrev pub sweeping : ImmixSpace I → Sweeping
  sweeping s = record {
    cells = s.line_mark_table.cells;
    usable_queue = s.usable_blocks;
    used_queue = s.used_blocks;
    live_blocks = [];
    usable_blocks = 0;
    full_blocks = 0;
  }

  unfoldable pub sweep : ℕ → ImmixSpace I → Outcome (ImmixSpace I)
  unfolding sweep_loop
  sweep fuel s = do
    w ← sweep_loop fuel (sweeping s)
    check (not (w.full_blocks == s.total_blocks)) panicked
    ok (record s {
      line_mark_table = record s.line_mark_table { cells = w.cells };
      usable_blocks = w.usable_queue;
      used_blocks = foldl I.push w.used_queue w.live_blocks;
    })
