-- ===== src/Tests/Trees.antt =====
-- src/rust_benchmarks: a tree of three nodes, built in an empty hole.
use Prim.Native.Nat.{ℕ, ◌+◌}
use mathlib.Core.Path.{◌≡◌, refl}
use mathlib.Core.Logic.{◌≢◌}
use mathlib.Core.List.{List, [], ◌∷◌}
use mathlib.Core.Option.{none}
use native.Mathlib.Omega.{arith}
use immix_rust.Prelude.{Outcome, ok, replicate, if◌then◌else◌, ◌==◌}
use immix_rust.Common.Address.{Address, ObjectReference}
use immix_rust.ObjectModel.{get_ref_byte}
use immix_rust.Immix.Space.{ImmixSpace}
use immix_rust.Immix.Mutator.{Heap, init_object}
use immix_rust.Gc.Roots.{starts_object, is_valid_object}
use immix_rust.Gc.Roots.Valid.{IsMapped}
use immix_rust.Gc.Roots.Objects.{IsInside, word_of, init_object-described}
use immix_rust.Benchmarks.GcBench.Grown.{below_bytes, Filled, Grown}
use immix_rust.Benchmarks.GcBench.Filling.{populate-Grown}
use immix_rust.Benchmarks.GcBench.{populate, node, World, make_tree}
use immix_rust.Benchmarks.GcBench.Rooms.{IsNodeType, HasRoom, Built}
use immix_rust.Benchmarks.GcBench.Trees.{tree_bytes, Tree, make_tree-Tree}
use immix_rust.Tests.Spaces.{Blocks}
use immix_rust.Tests.Traces.{flipped_map, two_lines_table}

abbrev pub space_of : List ℕ → ImmixSpace Blocks
space_of encodings = record {
  start = 512;
  end = 1024;
  alloc_map = record { start = 512; end = 1024; ptr = encodings };
  trace_map = flipped_map;
  line_mark_table = two_lines_table;
  total_blocks = 1;
  usable_blocks = [];
  used_blocks = [];
}

abbrev pub world_of : List ℕ → (Address → ℕ) → World Blocks
world_of encodings memory = record {
  heap = record {
    local = record {
      id = 0;
      space_start = 512;
      cursor = 512;
      limit = 1024;
      line = 2;
      block = none;
    };
    space = space_of encodings;
    mutators = [];
    n_mutators = 1;
  };
  memory = memory;
}

abbrev empty_world : World Blocks
empty_world = world_of (replicate 64 0) (λ _. 0)

abbrev no_wait : Heap Blocks → Outcome (Heap Blocks)
no_wait h = ok h

node-IsNodeType : IsNodeType node
node-IsNodeType = record { left = omega arith; right = omega arith; whole = refl }

space_of-IsMapped : IsMapped Blocks (space_of (replicate 64 0))
space_of-IsMapped = record { begins = refl; low = omega arith; sized = λ p lo hi. omega arith }

empty_world-HasRoom : HasRoom Blocks (tree_bytes node 1 + 0) empty_world
unfolding tree_bytes
empty_world-HasRoom = record {
  mapped = space_of-IsMapped;
  known = refl;
  aligned = refl;
  low = omega arith;
  room = omega arith;
  high = omega arith;
}

make_tree-Tree_example :
    (p : ObjectReference) × (w' : World Blocks) × (make_tree Blocks no_wait node 1 1 empty_world
      ≡ ok (p, w'))
    × Built Blocks (tree_bytes node 1) empty_world w'
    × HasRoom Blocks 0 w'
    × Tree Blocks node w' 512 w'.heap.local.cursor 1 p
make_tree-Tree_example =
    make_tree-Tree Blocks node node-IsNodeType no_wait 0 1 0 empty_world empty_world-HasRoom

init_object-described_example :
    (h' : Heap Blocks) × (init_object Blocks empty_world.heap 520 195 ≡ ok h')
    × (get_ref_byte h'.space.alloc_map.ptr h'.space.start 520 ≡ ok 195)
    × (is_valid_object 520 h'.space.start h'.space.end h'.space.alloc_map ≡ ok (starts_object 195))
    × ((p : ObjectReference)
        → IsInside Blocks empty_world.heap.space p
        → word_of Blocks empty_world.heap.space p ≢ word_of Blocks empty_world.heap.space 520
        → (get_ref_byte h'.space.alloc_map.ptr h'.space.start p
            ≡ get_ref_byte empty_world.heap.space.alloc_map.ptr 512 p)
          × (is_valid_object p h'.space.start h'.space.end h'.space.alloc_map
              ≡ is_valid_object p 512 1024 empty_world.heap.space.alloc_map))
    × (h' ≡ record empty_world.heap {
      space = record empty_world.heap.space { alloc_map = h'.space.alloc_map };
    })
    × IsMapped Blocks h'.space
init_object-described_example =
    init_object-described Blocks empty_world.heap space_of-IsMapped refl 520
      (omega arith, omega arith) 195

-- A node that `mt_gcbench.rs` has described: its header holds 1, its pointers 544 and 576.
abbrev header_world : World Blocks
header_world =
    world_of (195 ∷ replicate 63 0)
      (λ a. if a == 512 then 1 else if a == 520 then 544 else if a == 528 then 576 else 0)

-- The root at 512 is allocated, and there is room for two children.
abbrev rooted_world : World Blocks
rooted_world = record {
  heap = record empty_world.heap { local = record empty_world.heap.local { cursor = 536 } };
  memory = λ _. 0;
}

rooted_world-HasRoom : HasRoom Blocks (below_bytes node 1 + 0) rooted_world
unfolding below_bytes
rooted_world-HasRoom = record {
  mapped = space_of-IsMapped;
  known = refl;
  aligned = refl;
  low = omega arith;
  room = omega arith;
  high = omega arith;
}

populate-Grown_example :
    (w' : World Blocks) × (populate Blocks no_wait node 1 1 512 rooted_world ≡ ok w')
    × Filled Blocks node 512 (below_bytes node 1) rooted_world w'
    × HasRoom Blocks 0 w'
    × Grown Blocks node w' 536 w'.heap.local.cursor 1 512
populate-Grown_example =
    populate-Grown Blocks node node-IsNodeType no_wait 0 1 0 512 rooted_world rooted_world-HasRoom
      (omega arith)
