-- ===== src/Benchmarks/MtGcBench.antt =====
-- src/rust_benchmarks/mt_gcbench.rs: the same benchmark with a mutator for each thread, other sizes and
-- a node that begins with a header.
pub mod Edges
use Prim.Native.Nat.{ℕ, zero, suc, ◌+◌, ◌-◌, ◌*◌, ◌/◌, ◌%◌, ◌^◌}
use immix_rust.Prelude.{Outcome, ok, err, panicked, ◌>>=◌, ◌==◌, leb, if◌then◌else◌}
use immix_rust.Common.Address.{Address, usize_mod}
use immix_rust.Crossbeam.{Injector}
use immix_rust.Immix.Block.{ImmixBlock}
use immix_rust.Immix.Mutator.{Heap}
use immix_rust.Immix.Mutator
use immix_rust.Benchmarks.GcBench.{NodeType, World}
use immix_rust.Benchmarks.GcBench

-- `#[repr(C)]` keeps the order of the fields.
abbrev pub header_node : NodeType
header_node = record { size = 32; left = 8; right = 16 }

abbrev pub long_lived_tree_depth : ℕ
long_lived_tree_depth = 16

abbrev pub min_tree_depth : ℕ
min_tree_depth = 4

abbrev pub max_tree_depth : ℕ
max_tree_depth = 21

unfoldable pub tree_size : ℕ → ℕ
tree_size i = (2 ^ ((i + 1) % 64) + usize_mod - 1) % usize_mod

unfoldable pub num_iters : ℕ → Outcome ℕ
unfolding tree_size
num_iters i =
    if tree_size i == 0
    then err panicked
    else ok (20 * tree_size max_tree_depth % usize_mod / tree_size i)

module _ (I : Injector ImmixBlock) (sync_barrier : Heap I → Outcome (Heap I)) (fuel : ℕ) where
  unfoldable pub alloc : World I → Outcome (Address × World I)
  unfolding GcBench.alloc
  alloc = GcBench.alloc I sync_barrier header_node fuel

  unfoldable pub populate : ℕ → Address → World I → Outcome (World I)
  unfolding GcBench.populate
  populate = GcBench.populate I sync_barrier header_node fuel

  unfoldable pub make_tree : ℕ → World I → Outcome (Address × World I)
  unfolding GcBench.make_tree
  make_tree = GcBench.make_tree I sync_barrier header_node fuel

  unfoldable pub time_construction : ℕ → World I → Outcome (World I)
  unfolding num_iters GcBench.top_down GcBench.bottom_up
  time_construction depth w = do
    iters ← num_iters depth
    w1 ← GcBench.top_down I sync_barrier header_node fuel iters depth w
    GcBench.bottom_up I sync_barrier header_node fuel iters depth w1

  -- `while d <= kMaxTreeDepth`, with the rounds that are left.
  unfoldable pub depths : ℕ → ℕ → World I → Outcome (World I)
  unfolding time_construction
  depths zero d w = ok w
  depths (suc rounds) d w =
      let rest = (do w1 ← time_construction d w; depths rounds (d + 2) w1) in
      if leb d max_tree_depth then rest else ok w

  -- `run_one_test` behind the registration of its mutator. The loop takes one round for each second
  -- depth.
  unfoldable pub run_one_test : World I → Outcome (World I)
  unfolding alloc populate depths Mutator.destroy
  run_one_test w = do
    (long_lived_tree, w1) ← alloc w
    w2 ← populate long_lived_tree_depth long_lived_tree w1
    w3 ← depths (max_tree_depth / 2) min_tree_depth w2
    ok (record w3 { heap = Mutator.destroy I w3.heap })
