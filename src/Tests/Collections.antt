-- ===== src/Tests/Collections.antt =====
-- src/heap/gc/mod.rs: a collection of the space of two lines that the trace of one worker has visited.
use Prim.Native.Nat.{ℕ, zero, suc, ◌≤◌, ◌<◌, ◌-◌, ◌/◌}
use mathlib.Core.Path.{◌≡◌, refl, ap, ◌∙◌}
use mathlib.Core.Bool.{true}
use mathlib.Core.Logic.{◌⊎◌}
use mathlib.Core.List.{[], ◌∷◌}
use mathlib.Core.Option.{some}
use native.Mathlib.Omega.{arith}
use immix_rust.Prelude.{length, ok, All, All-get, replicate}
use immix_rust.Common.SafeAddressMap.{normalized_index}
use immix_rust.Common.SafeAddressMap
use immix_rust.Common.Address.{Address, ObjectReference}
use immix_rust.Common.TraceMap.{is_untraced_and_valid}
use immix_rust.Immix.Sizes.{bytes_in_line}
use immix_rust.Immix.LineMark.Marking.{IsLiveAt}
use immix_rust.Immix.Space.{ImmixSpace}
use immix_rust.Gc.Collection.Runs.{Panics-reasons, Traces, Collectable, Collects-keeps}
use immix_rust.Immix.Sizes.{usable}
use immix_rust.Immix.LineMark.{live}
use immix_rust.Immix.Space.Sweep.{sweep}
use immix_rust.Immix.Space.Sweep.Blocks.{filled}
use immix_rust.Gc.Trace.{
  Workers, returned, start, later, by, pop_none, steal_empty, leave, see_none, return,
}
use immix_rust.Gc.Trace.Reachable.{is_failed}
use immix_rust.Gc.Collection.{
  Panics, in_sweep, Collects, traced_space, sweep_and_flip, sweep_and_flip-keeps,
}
use immix_rust.Tests.Spaces.{Blocks}
use immix_rust.Tests.Traces.{
  References, encodings, word, flipped_map, two_lines_table, Visits, run, run-IsBinary,
  objects-Apart, two_lines_table-IsTable, second_reachable,
}

-- Its blocks are all usable.
abbrev pub visited_space : ImmixSpace Blocks
visited_space = record {
  start = 512;
  end = 1024;
  alloc_map = record { start = 512; end = 1024; ptr = encodings };
  trace_map = flipped_map;
  line_mark_table = two_lines_table;
  total_blocks = 1;
  usable_blocks = [];
  used_blocks = [];
}

sweep_and_flip-keeps_example :
    (fuel : ℕ) × (s' : ImmixSpace Blocks) × (sweep_and_flip Blocks References fuel
        (traced_space Blocks References visited_space run.0)
      ≡ ok s')
    × ((o : ObjectReference)
        → Visits o
        → IsLiveAt s'.line_mark_table.cells ((o - 512) / bytes_in_line)
          × (is_untraced_and_valid s'.trace_map o ≡ true))
sweep_and_flip-keeps_example =
    sweep_and_flip-keeps Blocks References word 1 (512 ∷ []) visited_space objects-Apart
      (omega arith) (omega arith) two_lines_table-IsTable refl (omega arith) run.0 run.1 0
      (omega arith) run.2 run-IsBinary tt (omega arith)

-- The collection of this space returns.
unfoldable pub ran :
    (s' : ImmixSpace Blocks) × Collects Blocks References 1 (512 ∷ []) visited_space s'
ran =
    let (fuel, s', finished, keeps) =
      sweep_and_flip-keeps Blocks References word 1 (512 ∷ []) visited_space objects-Apart
        (omega arith) (omega arith) two_lines_table-IsTable refl (omega arith) run.0 run.1 0
        (omega arith) run.2 run-IsBinary tt (omega arith) in
    (
      s',
      record {
        word = word;
        workers = run.0;
        traced = run.1;
        joined = λ i below. ap run.0.pc (only i below) ∙ run.2;
        fuel = fuel;
        finished = finished;
      },
    )
  where
    only : (i : ℕ) → i < 1 → i ≡ 0
    only i below = omega arith

zeros : (n : ℕ) → All (λ b. b ≤ 1) (replicate n 0)
zeros zero = tt
zeros (suc n) = (omega arith, zeros n)

pub flipped_map-bytes : (p v : ℕ) → SafeAddressMap.get flipped_map.map p ≡ some v → v ≤ 1
unfolding SafeAddressMap.get
flipped_map-bytes p v e =
    All-get (λ b. b ≤ 1) flipped_map.map.addresses (normalized_index flipped_map.map p) v (zeros 64)
      e

pub visited_space-Collectable : Collectable Blocks References word 1 (512 ∷ []) visited_space
visited_space-Collectable = record {
  apart = objects-Apart;
  some_cpu = omega arith;
  few = omega arith;
  valid = two_lines_table-IsTable;
  begins = refl;
  ends = omega arith;
  binary = record { state = omega arith; bytes = flipped_map-bytes };
  fit = tt;
}

Collects-keeps_example :
    IsLiveAt ran.0.line_mark_table.cells ((520 - 512) / bytes_in_line)
    × (is_untraced_and_valid ran.0.trace_map 520 ≡ true)
unfolding ran
Collects-keeps_example =
    Collects-keeps Blocks References 1 (512 ∷ []) visited_space ran.0 ran.1
      visited_space-Collectable 520 second_reachable

-- A space whose one block is full.
abbrev full_space : ImmixSpace Blocks
full_space = record visited_space {
  line_mark_table = record { space_start = 512; cells = live ∷ live ∷ []; len = 2 };
  used_blocks =
      record { id = 0; state = usable; start = 512; line_mark_table = record { base = 0; len = 2 } }
      ∷ [];
}

-- Without roots the trace has nothing to visit, and `sweep` panics.
full_space-Panics : Panics Blocks References 1 [] full_space
unfolding sweep_and_flip sweep
full_space-Panics =
    let run =
      later
        (later
          (later
            (later (later start (by 0 (omega arith) pop_none))
              (by 0 (omega arith) (steal_empty refl)))
            (by 0 (omega arith) leave))
          (by 0 (omega arith) (see_none refl)))
        (by 0 (omega arith) (return refl)) in
    in_sweep (λ _. 0) run (λ i below. ground arith) 2 refl

Panics-reasons_example :
    (memory : Address → ℕ) × (w : Workers References) × Traces Blocks References memory 1 []
      full_space w
    × (((i : ℕ) × (i < 1) × (is_failed (w.pc i) ≡ true))
        ⊎ (((i : ℕ) → i < 1 → w.pc i ≡ returned)
            × (length (filled w.shared.line_mark_table.cells (Blocks.items full_space.used_blocks))
                ≡ 1)))
Panics-reasons_example =
    Panics-reasons Blocks References 1 [] full_space (omega arith, tt) full_space-Panics
