-- ===== src/Benchmarks/GcBench.antt =====
-- src/rust_benchmarks/gcbench.rs: the trees that the benchmark builds. Depths are not negative. The
-- program writes to memory through raw pointers; `memory` is the word at each address.
pub mod Rooms
pub mod Trees
pub mod Grown
pub mod Filling
pub mod Sizes
pub mod Survival
use Prim.Native.Nat.{ℕ, zero, suc, ◌+◌, ◌-◌, ◌*◌, ◌/◌, ◌%◌, ◌^◌}
use mathlib.Core.List.{List, [], ◌∷◌}
use immix_rust.Prelude.{Outcome, ok, err, panicked, ◌>>=◌, ◌==◌, leb, if◌then◌else◌}
use immix_rust.Prelude.Families.{with_thread}
use immix_rust.Common.Address.{Address, plus}
use immix_rust.Crossbeam.{Injector}
use immix_rust.Immix.Block.{ImmixBlock}
use immix_rust.Immix.Mutator.{Layout, Heap, init_object}
use immix_rust.Immix.Mutator

-- Where the fields of a `Node` lie.
pub record NodeType : Type 0 where
  pub size : ℕ
  pub left : ℕ
  pub right : ℕ

-- The order of the fields is left to the compiler; here it is that of the declaration.
abbrev pub node : NodeType
node = record { size = 24; left = 0; right = 8 }

abbrev pub stretch_tree_depth : ℕ
stretch_tree_depth = 18

abbrev pub long_lived_tree_depth : ℕ
long_lived_tree_depth = 16

abbrev pub min_tree_depth : ℕ
min_tree_depth = 4

abbrev pub max_tree_depth : ℕ
max_tree_depth = 16

-- `i32` as its residue.
abbrev pub i32_mod : ℕ
i32_mod = 2 ^ 32

-- A shift by 32 or more takes the amount modulo 32.
unfoldable pub tree_size : ℕ → ℕ
tree_size i = (2 ^ ((i + 1) % 32) + i32_mod - 1) % i32_mod

unfoldable pub num_iters : ℕ → Outcome ℕ
unfolding tree_size
num_iters i =
    if tree_size i == 0 then err panicked else ok (2 * tree_size stretch_tree_depth / tree_size i)

module _ (I : Injector ImmixBlock) where
  -- The mutator and the memory.
  pub record World : Type 0 where
    pub heap : Heap I
    pub memory : Address → ℕ

  abbrev pub write : Address → ℕ → World → World
  write a value w = record w { memory = with_thread a value w.memory }

  unfoldable pub init_node : NodeType → Address → Address → Address → World → World
  unfolding plus
  init_node node me l r w = write (plus me node.right) r (write (plus me node.left) l w)

  module _ (sync_barrier : Heap I → Outcome (Heap I)) (node : NodeType) (fuel : ℕ) where
    unfoldable pub alloc : World → Outcome (Address × World)
    unfolding Mutator.alloc init_object
    alloc w = do
      (addr, h) ← Mutator.alloc I sync_barrier fuel w.heap (record { size = node.size; align = 8 })
      h' ← init_object I h addr 195
      ok (addr, record w { heap = h' })

    unfoldable pub populate : ℕ → Address → World → Outcome World
    unfolding alloc plus
    populate zero this_node w = ok w
    populate (suc depth) this_node w = do
      (l, w1) ← alloc w
      (r, w2) ← alloc (write (plus this_node node.left) l w1)
      let w3 = write (plus this_node node.right) r w2
      w4 ← populate depth (w3.memory (plus this_node node.left)) w3
      populate depth (w4.memory (plus this_node node.right)) w4

    unfoldable pub make_tree : ℕ → World → Outcome (Address × World)
    unfolding alloc init_node
    make_tree zero w = alloc w
    make_tree (suc depth) w = do
      (left, w1) ← make_tree depth w
      (right, w2) ← make_tree depth w1
      (result, w3) ← alloc w2
      ok (result, init_node node result left right w3)

    -- The two loops of `TimeConstruction`, with the rounds that are left.
    unfoldable pub top_down : ℕ → ℕ → World → Outcome World
    unfolding alloc populate
    top_down zero depth w = ok w
    top_down (suc rounds) depth w = do
      (temp_tree, w1) ← alloc w
      w2 ← populate depth temp_tree w1
      top_down rounds depth w2

    unfoldable pub bottom_up : ℕ → ℕ → World → Outcome World
    unfolding make_tree
    bottom_up zero depth w = ok w
    bottom_up (suc rounds) depth w = do
      (temp_tree, w1) ← make_tree depth w
      bottom_up rounds depth w1

    unfoldable pub time_construction : ℕ → World → Outcome World
    unfolding num_iters top_down bottom_up
    time_construction depth w = do
      iters ← num_iters depth
      w1 ← top_down iters depth w
      bottom_up iters depth w1

    -- `while d <= kMaxTreeDepth`, with the rounds that are left.
    unfoldable pub depths : ℕ → ℕ → World → Outcome World
    unfolding time_construction
    depths zero d w = ok w
    depths (suc rounds) d w =
        let rest = (do w1 ← time_construction d w; depths rounds (d + 2) w1) in
        if leb d max_tree_depth then rest else ok w

    -- `start` behind the registration of its mutator. The loop takes one round for each second depth.
    unfoldable pub run : World → Outcome World
    unfolding alloc populate make_tree depths
    run w = do
      (temp_tree, w1) ← make_tree stretch_tree_depth w
      (long_lived_tree, w2) ← alloc w1
      w3 ← populate long_lived_tree_depth long_lived_tree w2
      depths (max_tree_depth / 2) min_tree_depth w3
