-- ===== src/Benchmarks/GcBench/Filling.antt =====
-- src/rust_benchmarks/gcbench.rs: `Populate` builds the tree below a node.
use Prim.Native.Nat.{ℕ, zero, suc, ◌+◌, ◌≤◌, ◌<◌}
use mathlib.Core.Path.{◌≡◌, refl}
use native.Mathlib.Omega.{arith}
use immix_rust.Prelude.{Outcome, ok}
use immix_rust.Prelude.Families.{with_thread}
use immix_rust.Common.Address.{Address, plus, usize_mod}
use immix_rust.Crossbeam.{Injector}
use immix_rust.Immix.Block.{ImmixBlock}
use immix_rust.Immix.Mutator.{Heap}
use immix_rust.Benchmarks.GcBench.{NodeType, World, write, alloc, populate}
use immix_rust.Benchmarks.GcBench.Rooms.{IsNodeType, HasRoom, HasRoom-of_eq, alloc-Built}
use immix_rust.Benchmarks.GcBench.Grown.{
  below_bytes, Grown, bare, Filled, written-HasRoom, left_set, right_set, children-Filled,
  children-Grown,
}

module _ (I : Injector ImmixBlock) (node : NodeType) (shape : IsNodeType node) where
  module _ (sync_barrier : Heap I → Outcome (Heap I)) (fuel : ℕ) where
    join-runs :
        (depth : ℕ) (x l r : Address) (w w1 w2 w4 w5 : World I)
        → alloc I sync_barrier node (suc fuel) w ≡ ok (l, w1)
        → alloc I sync_barrier node (suc fuel) (write I (plus x node.left) l w1) ≡ ok (r, w2)
        → with_thread (plus x node.right) r w2.memory (plus x node.left) ≡ l
        → populate I sync_barrier node (suc fuel) depth l (write I (plus x node.right) r w2) ≡ ok w4
        → w4.memory (plus x node.right) ≡ r
        → populate I sync_barrier node (suc fuel) depth r w4 ≡ ok w5
        → populate I sync_barrier node (suc fuel) (suc depth) x w ≡ ok w5
    unfolding populate
    join-runs depth x l r w w1 w2 w4 w5 run1 run2 at_l run3 at_r run4 =
        rw (run1, run2, at_l, run3, at_r, run4) refl

    -- What `Populate` comes to at the node `x`, in a hole with room for the tree and `bytes` more.
    abbrev Fills : ℕ → ℕ → Address → World I → Type 0
    Fills depth bytes x w =
        (w' : World I) × (populate I sync_barrier node (suc fuel) depth x w ≡ ok w')
        × Filled I node x (below_bytes node depth) w w'
        × HasRoom I bytes w'
        × Grown I node w' w.heap.local.cursor w'.heap.local.cursor depth x

    fill_none :
        (bytes : ℕ) (x : Address) (w : World I) → HasRoom I (0 + bytes) w → Fills zero bytes x w
    unfolding populate below_bytes
    fill_none bytes x w v = (
      w,
      refl,
      record {
        cursor = omega arith;
        start = refl;
        described = λ p lo hi. refl;
        words = λ a lt n m. refl;
      },
      HasRoom-of_eq I (omega arith) v,
      bare refl,
    )

    -- In a hole with room for them, `Populate` returns at a node that lies below the cursor and has
    -- built the complete tree of its depth below it: the other nodes fill exactly the bytes that were
    -- handed out, each is described as an object with two references, each node but the leaves points
    -- to its two children, and of what was there before only the two pointers of the node change.
    pub populate-Grown :
        (depth bytes : ℕ) (x : Address) (w : World I)
        → HasRoom I (below_bytes node depth + bytes) w
        → x + node.size ≤ w.heap.local.cursor
        → Fills depth bytes x w
    unfolding below_bytes
    populate-Grown zero bytes x w v low = fill_none bytes x w v
    populate-Grown (suc depth) bytes x w v low =
        let n = below_bytes node depth in
        let top : w.heap.local.cursor < usize_mod = omega (arith, v.room, v.high, v.mapped.low) in
        let l = w.heap.local.cursor in
        let (w1, run1, b1, v1, byte_l) =
          alloc-Built I sync_barrier node shape fuel (node.size + (n + n + bytes)) w
            (HasRoom-of_eq I (omega arith) v) in
        let r = w1.heap.local.cursor in
        let w1' = write I (plus x node.left) l w1 in
        let (w2, run2, b2, v2, byte_r) =
          alloc-Built I sync_barrier node shape fuel (n + n + bytes) w1'
            (written-HasRoom I node shape (plus x node.left) l v1) in
        let w3 = write I (plus x node.right) r w2 in
        let (w4, run4, f4, v4, g4) =
          populate-Grown depth (n + bytes) l w3
            (HasRoom-of_eq I (omega arith) (written-HasRoom I node shape (plus x node.right) r v2))
            (omega (arith, b1.cursor, b2.cursor)) in
        let (w5, run5, f5, v5, g5) =
          populate-Grown depth bytes r w4 v4 (omega (arith, b1.cursor, b2.cursor, f4.cursor)) in
        (
          w5,
          join-runs depth x l r w w1 w2 w4 w5 run1 run2
              (left_set I node shape x low top v.low b1 b2 f4 f5) run4
              (right_set I node shape x low top v.low b1 b2 f4 f5) run5,
          children-Filled I node shape x low top v.low b1 b2 f4 f5,
          v5,
          children-Grown I node shape x low top v.low b1 b2 f4 f5 depth byte_l byte_r g4 g5,
        )
