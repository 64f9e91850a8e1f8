-- ===== src/Immix/Space/Init.antt =====
-- src/heap/immix/immix_space.rs: a new space, cut into blocks.
use Prim.Native.Nat.{ℕ, zero, suc, ◌+◌, ◌*◌, ◌/◌, ◌≤◌}
use mathlib.Core.Path.{◌≡◌, refl, ap}
use mathlib.Core.List.{List, [], ◌∷◌}
use mathlib.Core.Option.{none}
use native.Mathlib.Omega.{arith}
use immix_rust.Prelude.{length, err, panicked, replicate}
use immix_rust.Common.Address.{Address, pointer_size}
use immix_rust.Common.AddressMap
use immix_rust.Common.TraceMap
use immix_rust.Crossbeam.{Injector}
use immix_rust.Immix.Sizes.{bytes_in_block, lines_in_block, bytes_in_line, usable}
use immix_rust.Immix.Block.{ImmixBlock}
use immix_rust.Immix.LineMark.{LineMark, free}
use immix_rust.Immix.LineMark
use immix_rust.Immix.Space.{ImmixSpace, new}
use immix_rust.Immix.Space.Sweep.Blocks.{AllFit}

-- The block number `k` of a space that starts at `start`.
abbrev pub block_at : Address → ℕ → ImmixBlock
block_at start k = record {
  id = k;
  state = usable;
  start = start + k * bytes_in_block;
  line_mark_table = record { base = k * lines_in_block; len = lines_in_block };
}

-- The blocks with the numbers from `k` on, `n` of them.
abbrev pub blocks_from : Address → ℕ → ℕ → List ImmixBlock
blocks_from start k zero = []
blocks_from start k (suc n) = block_at start k ∷ blocks_from start (k + 1) n

pub length-blocks_from : (start : Address) (k n : ℕ) → length (blocks_from start k n) ≡ n
length-blocks_from start k zero = refl
length-blocks_from start k (suc n) = ap suc (length-blocks_from start (k + 1) n)

pub blocks_from-AllFit :
    (start : Address) (k n : ℕ) (cells : List LineMark)
    → (k + n) * lines_in_block ≤ length cells
    → AllFit cells (blocks_from start k n)
blocks_from-AllFit start k zero cells h = tt
blocks_from-AllFit start k (suc n) cells h =
    (omega arith, blocks_from-AllFit start (k + 1) n cells (omega arith))

module _ (I : Injector ImmixBlock) where
  -- A space that is not used yet: its blocks are cut off one behind the other.
  pub record IsFresh (s : ImmixSpace I) (start size : ℕ) : Type 0 where
    pub begins : s.start ≡ start
    pub ends : s.end ≡ start + size
    pub count : s.total_blocks ≡ size / bytes_in_block
    pub usable_items : I.items s.usable_blocks ≡ blocks_from start 0 (size / bytes_in_block)
    pub used_items : I.items s.used_blocks ≡ []
    pub table : s.line_mark_table ≡ record {
      space_start = start;
      cells = replicate (size / bytes_in_line) free;
      len = size / bytes_in_line;
    }
    pub alloc_map :
        s.alloc_map
        ≡ record { start = start; end = start + size; ptr = replicate (size / pointer_size) 0 }
    pub trace_map : s.trace_map ≡ TraceMap.new start (start + size)

  -- The state in which `new` calls `init_blocks`.
  abbrev blank : Address → Address → ImmixSpace I
  blank start end = record {
    start = start;
    end = end;
    line_mark_table = LineMark.new start end;
    trace_map = TraceMap.new start end;
    alloc_map = AddressMap.new 0 start end;
    usable_blocks = I.new;
    used_blocks = I.new;
    total_blocks = 0;
  }

  -- Without memory from `mmap`, `new` panics.
  pub new-panicked : (size : ℕ) → new I none size ≡ err panicked
  unfolding new
  new-panicked size = refl
