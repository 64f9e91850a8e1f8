-- ===== src/Tests/Allocations.antt =====
-- src/heap/immix/immix_mutator.rs: a mutator with one block.
use Prim.Native.Nat.{ℕ, zero, suc, ◌+◌, ◌^◌, ◌<◌}
use mathlib.Core.Logic.{◌≢◌}
use mathlib.Core.Path.{◌≡◌, refl}
use mathlib.Core.List.{List, [], ◌∷◌}
use mathlib.Core.Option.{some}
use native.Mathlib.Omega.{arith}
use immix_rust.Prelude.{Outcome, ok, replicate, get_elem?}
use immix_rust.Common.Address.{Address}
use immix_rust.Common.TraceMap
use immix_rust.Immix.Sizes.{usable}
use immix_rust.Immix.Block.{ImmixBlock}
use immix_rust.Immix.Globals
use immix_rust.Immix.LineMark.{LineMark, free, live, fresh_alloc}
use immix_rust.Immix.Mutator.{Layout, Heap, alloc}
use immix_rust.Immix.Mutator.Invariant.{IsBlock, HasHole, holding, IsHeap}
use immix_rust.Immix.Mutator.Allocation.{IsLayout}
use immix_rust.Immix.Mutator.Soundness.{Sound}
use immix_rust.Immix.Mutator.Paths.{alloc-Sound}
use immix_rust.Immix.Mutator.Handing.{Range, Hands, Owns, Refines}
use immix_rust.Immix.Mutator.Handing.Refinement.{alloc-Hands}
use immix_rust.Tests.Spaces.{Blocks}

abbrev origin : Address
origin = 2 ^ 19

abbrev only_block : ImmixBlock
only_block = record {
  id = 0;
  state = usable;
  start = origin;
  line_mark_table = record { base = 0; len = 256 };
}

-- The first two lines are live; the mutator has not looked at the block yet.
abbrev heap_with : List LineMark → ℕ → ℕ → ℕ → Heap Blocks
heap_with cells cursor limit line = record {
  local = record {
    id = 7;
    space_start = origin;
    cursor = cursor;
    limit = limit;
    line = line;
    block = some only_block;
  };
  space = record {
    start = origin;
    end = origin + 65536;
    alloc_map = record { start = origin; end = origin + 65536; ptr = [] };
    trace_map = TraceMap.new origin (origin + 65536);
    line_mark_table = record { space_start = origin; cells = cells; len = 256 };
    total_blocks = 1;
    usable_blocks = [];
    used_blocks = [];
  };
  mutators = (7, Globals.new) ∷ [];
  n_mutators = 1;
}

abbrev before : Heap Blocks
before = heap_with (live ∷ live ∷ replicate 254 free) origin origin 0

-- Behind an object of 24 bytes on the third line.
abbrev after : Heap Blocks
after = heap_with (live ∷ live ∷ replicate 254 fresh_alloc) (origin + 536) (origin + 65536) 256

abbrev node : Layout
node = record { size = 24; align = 8 }

node-IsLayout : IsLayout node
node-IsLayout = record {
  log_align = 3;
  power = refl;
  small = omega arith;
  size_pos = omega arith;
  fits = omega arith;
}

-- A barrier that never has anything to wait for.
abbrev no_wait : Heap Blocks → Outcome (Heap Blocks)
no_wait h = ok h

alloc_runs : alloc Blocks no_wait 2 before node ≡ ok (origin + 512, after)
unfolding alloc
alloc_runs = refl

only_block-IsBlock : IsBlock origin 256 only_block
only_block-IsBlock = record {
  whole = refl;
  inside = omega arith;
  place = refl;
  aligned = refl;
  high = omega arith;
}

before-IsHeap : IsHeap Blocks before
before-IsHeap = record { usable_ok = tt; used_ok = tt; held_ok = only_block-IsBlock }

before-HasHole : HasHole only_block before.local before.space.line_mark_table.cells
before-HasHole = record {
  held = refl;
  limit = refl;
  low = omega arith;
  high = omega arith;
  line = omega arith;
  fresh = λ l below near. absurd (omega arith);
}

alloc-Sound_example : Sound Blocks node (origin + 512, after)
alloc-Sound_example =
    alloc-Sound Blocks no_wait (λ h v. v) node node-IsLayout 2 before
      (before-IsHeap, holding only_block before-HasHole) (origin + 512) after alloc_runs

-- The object on the first two lines.
abbrev old : Range
old = record { start = origin; size = 512 }

live_not_free : some live ≡ some free → ⊥
live_not_free e = cc

old_lines : (j : ℕ) → j < 2 → get_elem? before.space.line_mark_table.cells j ≢ some free
old_lines zero lt = live_not_free
old_lines (suc zero) lt = live_not_free
old_lines (suc (suc j)) lt = absurd (omega arith)

before-Owns : Owns Blocks before old
before-Owns = record {
  some_byte = omega arith;
  outside = omega arith;
  taken = λ j lo hi. old_lines j (omega arith);
}

alloc-Hands_example :
    (handed' : List Range) × Hands node (origin + 512) (old ∷ []) handed'
    × Refines Blocks handed' after
alloc-Hands_example =
    alloc-Hands Blocks no_wait (old ∷ []) (λ h v. v) node node-IsLayout 2 before
      (record {
        ready = (before-IsHeap, holding only_block before-HasHole);
        owned = (before-Owns, tt);
      })
      (origin + 512) after alloc_runs
