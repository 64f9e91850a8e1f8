-- ===== src/Tests/Spaces.antt =====
-- src/heap/immix/immix_space.rs: small spaces, over queues that are plain lists.
use Prim.Native.Nat.{ℕ, ◌+◌, ◌*◌}
use mathlib.Core.Path.{◌≡◌, refl}
use mathlib.Core.List.{[], ◌∷◌}
use mathlib.Core.Option.{Option, none}
use native.Mathlib.Omega.{arith}
use immix_rust.Prelude.{ok, err, panicked}
use immix_rust.Common.TraceMap
use immix_rust.Crossbeam.{Injector, list_injector}
use immix_rust.Immix.Sizes.{usable, full}
use immix_rust.Immix.Globals.{Mutators}
use immix_rust.Immix.Globals
use immix_rust.Immix.Block.{ImmixBlock, set_state}
use immix_rust.Immix.LineMark.{free, live, fresh_alloc, conserv_live}
use immix_rust.Immix.Space.{ImmixSpace, new, get_next_usable_block}
use immix_rust.Immix.Space.Next.{Took, get_next_usable_block-Took}
use immix_rust.Immix.Space.Sweep.{Sweeping, sweep_loop, sweeping, sweep}
use immix_rust.Immix.Space.Sweep.Total.{
  SweptSpace, sweep-SweptSpace, sweep-panicked, sweep_loop-counts,
}

abbrev pub Blocks : Injector ImmixBlock
Blocks = list_injector ImmixBlock

-- A block of two lines, to keep the runs short.
abbrev two_lines : ℕ → ImmixBlock
two_lines k = record {
  id = k;
  state = usable;
  start = k * 512;
  line_mark_table = record { base = k * 2; len = 2 };
}

-- Three blocks: the first two are used, and the second of them is full.
abbrev three_blocks : ImmixSpace Blocks
three_blocks = record {
  start = 0;
  end = 1536;
  alloc_map = record { start = 0; end = 1536; ptr = [] };
  trace_map = TraceMap.new 0 1536;
  line_mark_table = record {
    space_start = 0;
    cells = live ∷ fresh_alloc ∷ live ∷ conserv_live ∷ free ∷ free ∷ [];
    len = 6;
  };
  total_blocks = 3;
  usable_blocks = two_lines 2 ∷ [];
  used_blocks = two_lines 0 ∷ two_lines 1 ∷ [];
}

abbrev swept_blocks : ImmixSpace Blocks
swept_blocks = record three_blocks {
  line_mark_table = record {
    space_start = 0;
    cells = live ∷ free ∷ live ∷ conserv_live ∷ free ∷ free ∷ [];
    len = 6;
  };
  usable_blocks = two_lines 2 ∷ two_lines 0 ∷ [];
  used_blocks = set_state full (two_lines 1) ∷ [];
}

sweep_runs : sweep Blocks 3 three_blocks ≡ ok swept_blocks
unfolding sweep
sweep_runs = refl

sweep-SweptSpace_example :
    (fuel : ℕ) × (s' : ImmixSpace Blocks) × (sweep Blocks fuel three_blocks ≡ ok s')
    × SweptSpace Blocks three_blocks s'
sweep-SweptSpace_example = sweep-SweptSpace Blocks three_blocks (omega arith) (omega arith)

sweep_loop-counts_example :
    (fuel : ℕ) × (w : Sweeping Blocks) × (sweep_loop Blocks fuel (sweeping Blocks three_blocks)
      ≡ ok w)
    × (w.full_blocks + w.usable_blocks ≡ 2)
sweep_loop-counts_example = sweep_loop-counts Blocks three_blocks (omega arith)

-- The second block alone, in a space that has no other.
abbrev full_space : ImmixSpace Blocks
full_space = record three_blocks {
  total_blocks = 1;
  usable_blocks = [];
  used_blocks = two_lines 1 ∷ [];
}

sweep-panicked_example : (fuel : ℕ) × (sweep Blocks fuel full_space ≡ err panicked)
sweep-panicked_example = sweep-panicked Blocks full_space (omega arith) refl

abbrev one_mutator : Mutators
one_mutator = (7, Globals.new) ∷ []

get_next_usable_block-Took_example :
    (fuel : ℕ) × (o : Option ImmixBlock) × (s' : ImmixSpace Blocks) × (m' : Mutators)
    × (get_next_usable_block Blocks fuel three_blocks one_mutator ≡ ok (o, s', m'))
    × Took Blocks three_blocks one_mutator o s' m'
get_next_usable_block-Took_example =
    get_next_usable_block-Took Blocks 1 three_blocks one_mutator (omega arith)

no_block_left :
    get_next_usable_block Blocks 1 full_space one_mutator
    ≡ ok (none, full_space, Globals.trigger_gc one_mutator)
unfolding get_next_usable_block
no_block_left = refl
