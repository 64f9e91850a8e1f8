-- ===== src/Benchmarks/GcBench/Trees.antt =====
-- src/rust_benchmarks/gcbench.rs: what `MakeTree` builds.
use Prim.Native.Nat.{ℕ, zero, suc, ◌+◌, ◌%◌, ◌≤◌, ◌<◌}
use mathlib.Core.Path.{◌≡◌, refl, ◌∙◌}
use native.Mathlib.Omega.{arith}
use immix_rust.Prelude.{Outcome, ok}
use immix_rust.Prelude.Families.{with_thread, with_thread_self, with_thread_other}
use immix_rust.Common.Address.{Address, ObjectReference, plus, usize_mod}
use immix_rust.Crossbeam.{Injector}
use immix_rust.Immix.Block.{ImmixBlock}
use immix_rust.Immix.Mutator.{Heap}
use immix_rust.Benchmarks.GcBench.{NodeType, World, alloc, init_node, make_tree}
use immix_rust.Benchmarks.GcBench.Rooms.{
  IsNodeType, ref_byte, HasRoom, Built, HasRoom-of_eq, Built-trans, alloc-Built,
}

-- The bytes of a complete tree.
unfoldable pub tree_bytes : NodeType → ℕ → ℕ
tree_bytes node zero = node.size
tree_bytes node (suc depth) = tree_bytes node depth + (tree_bytes node depth + node.size)

module _ (I : Injector ImmixBlock) (node : NodeType) where
  -- A complete tree whose nodes fill the bytes from `lo` up to `hi`, each of them described as an object
  -- with two references, and each inner node pointing to its two subtrees.
  pub data Tree (w : World I) : Address → Address → ℕ → ObjectReference → Type 0 where
    leaf :
        {hi : Address} {p : ObjectReference}
        → hi ≡ p + node.size
        → ref_byte I w p ≡ ok 195
        → Tree w p hi zero p
    branch :
        {lo middle hi : Address} {depth : ℕ} {l r p : ObjectReference}
        → Tree w lo middle depth l
        → Tree w middle p depth r
        → hi ≡ p + node.size
        → ref_byte I w p ≡ ok 195
        → w.memory (p + node.left) ≡ l
        → w.memory (p + node.right) ≡ r
        → Tree w lo hi (suc depth) p

  -- Up to `top`, the space and the memory are as they were.
  record Same (top : Address) (w w' : World I) : Type 0 where
    pub start : w'.heap.space.start ≡ w.heap.space.start
    pub described :
        (p : ObjectReference)
        → w.heap.space.start ≤ p
        → p + 8 ≤ top
        → ref_byte I w' p ≡ ref_byte I w p
    pub words : (a : Address) → a < top → w'.memory a ≡ w.memory a

  module _ (shape : IsNodeType node) where
    pub Tree-bounds :
        {w : World I} {lo hi : Address} {depth : ℕ} {p : ObjectReference}
        → Tree w lo hi depth p
        → (lo ≤ p) × (hi ≡ p + node.size)
    Tree-bounds (leaf e byte) = (omega arith, e)
    Tree-bounds (branch l r e byte at_l at_r) =
        let (l_low, l_high) = Tree-bounds l in
        let (r_low, r_high) = Tree-bounds r in (omega (arith, l_low, l_high, r_low, r_high), e)

    Tree-Same :
        {w w' : World I} {lo hi : Address} {depth : ℕ} {p : ObjectReference} (top : Address)
        → Same top w w'
        → w.heap.space.start ≤ lo
        → hi ≤ top
        → Tree w lo hi depth p
        → Tree w' lo hi depth p
    Tree-Same {p} top s low high (leaf e byte) =
        leaf e (s.described p low (omega (arith, e, shape.left, shape.right)) ∙ byte)
    Tree-Same {p} top s low high (branch l r e byte at_l at_r) =
        let (l_low, l_high) = Tree-bounds l in
        let (r_low, r_high) = Tree-bounds r in
        branch (Tree-Same top s low (omega (arith, l_high, r_low, r_high, e)) l)
          (Tree-Same top s (omega (arith, l_low, l_high)) (omega (arith, e)) r) e
          (s.described p (omega (arith, l_low, l_high, r_low, r_high))
              (omega (arith, e, shape.left, shape.right))
            ∙ byte)
          (s.words _ (omega (arith, e, shape.left, shape.right)) ∙ at_l)
          (s.words _ (omega (arith, e, shape.left, shape.right)) ∙ at_r)

    Same-of_Built :
        {bytes : ℕ} {w w' : World I} → Built I bytes w w' → Same w.heap.local.cursor w w'
    Same-of_Built b = record { start = b.start; described = b.described; words = b.words }

    abbrev linked : Address → Address → Address → World I → World I
    linked p l r w = record w {
      memory = with_thread (p + node.right) r (with_thread (p + node.left) l w.memory);
    }

    -- The pointers of a node that ends below the end of memory.
    init_node-linked :
        (p l r : Address) (w : World I)
        → p + node.size < usize_mod
        → init_node I node p l r w ≡ linked p l r w
    unfolding init_node plus
    init_node-linked p l r w fits =
        let left : (p + node.left) % usize_mod ≡ p + node.left =
          omega (arith, fits, shape.left, shape.right) in
        let right : (p + node.right) % usize_mod ≡ p + node.right =
          omega (arith, fits, shape.left, shape.right) in
        rw (left, right) refl

    linked-Built :
        {w w' : World I} (l r : Address)
        → Built I node.size w w'
        → Built I node.size w (linked w.heap.local.cursor l r w')
    linked-Built {w} {w'} l r b = record {
      cursor = b.cursor;
      start = b.start;
      described = b.described;
      words = λ a lt.
          with_thread_other (w.heap.local.cursor + node.right) r
            (with_thread (w.heap.local.cursor + node.left) l w'.memory) a (omega arith)
          ∙ with_thread_other (w.heap.local.cursor + node.left) l w'.memory a (omega arith)
          ∙ b.words a lt;
    }

    linked-HasRoom :
        {bytes : ℕ} {w : World I} (p l r : Address)
        → HasRoom I bytes w
        → HasRoom I bytes (linked p l r w)
    linked-HasRoom p l r v = record {
      mapped = v.mapped;
      known = v.known;
      aligned = v.aligned;
      low = v.low;
      room = v.room;
      high = v.high;
    }

    linked-left : (p l r : Address) (w : World I) → (linked p l r w).memory (p + node.left) ≡ l
    linked-left p l r w =
        with_thread_other (p + node.right) r (with_thread (p + node.left) l w.memory)
          (p + node.left) (omega (arith, shape.left))
        ∙ with_thread_self (p + node.left) l w.memory

    linked-right : (p l r : Address) (w : World I) → (linked p l r w).memory (p + node.right) ≡ r
    linked-right p l r w =
        with_thread_self (p + node.right) r (with_thread (p + node.left) l w.memory)

    module _ (sync_barrier : Heap I → Outcome (Heap I)) (fuel : ℕ) where
      -- What `MakeTree` comes to from `w`, in a hole with room for the tree and `bytes` more.
      abbrev Makes : ℕ → ℕ → World I → Type 0
      Makes depth bytes w =
          (p : ObjectReference) × (w' : World I) × (make_tree I sync_barrier node (suc fuel) depth w
            ≡ ok (p, w'))
          × Built I (tree_bytes node depth) w w'
          × HasRoom I bytes w'
          × Tree w' w.heap.local.cursor w'.heap.local.cursor depth p

      make_leaf : (bytes : ℕ) (w : World I) → HasRoom I (node.size + bytes) w → Makes zero bytes w
      unfolding make_tree tree_bytes
      make_leaf bytes w v =
          let (w', run, built, room, byte) = alloc-Built I sync_barrier node shape fuel bytes w v in
          (w.heap.local.cursor, w', run, built, room, leaf built.cursor byte)

      join-runs :
          (depth : ℕ) (w w1 w2 w3 : World I) (l r p : ObjectReference)
          → make_tree I sync_barrier node (suc fuel) depth w ≡ ok (l, w1)
          → make_tree I sync_barrier node (suc fuel) depth w1 ≡ ok (r, w2)
          → alloc I sync_barrier node (suc fuel) w2 ≡ ok (p, w3)
          → p + node.size < usize_mod
          → make_tree I sync_barrier node (suc fuel) (suc depth) w ≡ ok (p, linked p l r w3)
      unfolding make_tree
      join-runs depth w w1 w2 w3 l r p run1 run2 run3 fits =
          rw (run1, run2, run3, init_node-linked p l r w3 fits) refl

      -- In a hole with room for them, `MakeTree` returns and has built a complete tree of its depth:
      -- the nodes lie one behind the other from the cursor on and fill exactly the bytes that were
      -- handed out, each is described as an object with two references, each inner node points to
      -- its two subtrees, and nothing below the old cursor has changed.
      pub make_tree-Tree :
          (depth bytes : ℕ) (w : World I)
          → HasRoom I (tree_bytes node depth + bytes) w
          → Makes depth bytes w
      unfolding tree_bytes
      make_tree-Tree zero bytes w v = make_leaf bytes w v
      make_tree-Tree (suc depth) bytes w v =
          let n = tree_bytes node depth in
          let (l, w1, run1, b1, v1, t1) =
            make_tree-Tree depth (n + (node.size + bytes)) w (HasRoom-of_eq I (omega arith) v) in
          let (r, w2, run2, b2, v2, t2) = make_tree-Tree depth (node.size + bytes) w1 v1 in
          let (w3, run3, b3, v3, byte) = alloc-Built I sync_barrier node shape fuel bytes w2 v2 in
          let p = w2.heap.local.cursor in
          let b = linked-Built l r b3 in
          let fits : p + node.size < usize_mod =
            omega (arith, b3.cursor, v3.room, v3.high, v3.mapped.low) in
          (
            p,
            linked p l r w3,
            join-runs depth w w1 w2 w3 l r p run1 run2 run3 fits,
            Built-trans I b1 (Built-trans I b2 b),
            linked-HasRoom p l r v3,
            branch
                (Tree-Same w1.heap.local.cursor (Same-of_Built (Built-trans I b2 b))
                  (omega (arith, v.low, b1.start)) (omega arith) t1)
                (Tree-Same w2.heap.local.cursor (Same-of_Built b) (omega (arith, v1.low, b2.start))
                  (omega arith) t2)
                b.cursor byte (linked-left p l r w3) (linked-right p l r w3),
          )
