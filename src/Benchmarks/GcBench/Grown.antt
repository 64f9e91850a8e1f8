-- ===== src/Benchmarks/GcBench/Grown.antt =====
-- src/rust_benchmarks/gcbench.rs: what `Populate` builds below a node.
use Prim.Native.Nat.{ℕ, zero, suc, ◌+◌, ◌≤◌, ◌<◌}
use mathlib.Core.Path.{◌≡◌, sym, ap, ◌∙◌}
use mathlib.Core.Logic.{◌≢◌, ◌⊎◌, inl}
use native.Mathlib.Omega.{arith}
use immix_rust.Prelude.{ok}
use immix_rust.Prelude.Families.{with_thread, with_thread_self, with_thread_other}
use immix_rust.Common.Address.{Address, ObjectReference, plus, usize_mod}
use immix_rust.Crossbeam.{Injector}
use immix_rust.Immix.Block.{ImmixBlock}
use immix_rust.Benchmarks.GcBench.{NodeType, World, write}
use immix_rust.Benchmarks.GcBench.Rooms.{IsNodeType, ref_byte, HasRoom, Built}

-- The bytes below the root of a complete tree.
unfoldable pub below_bytes : NodeType → ℕ → ℕ
below_bytes node zero = 0
below_bytes node (suc depth) =
    node.size + (node.size + (below_bytes node depth + below_bytes node depth))

module _ (I : Injector ImmixBlock) (node : NodeType) where
  -- A complete tree below `p`, whose other nodes fill the bytes from `lo` up to `hi`: the two children
  -- come first.
  pub data Grown (w : World I) : Address → Address → ℕ → ObjectReference → Type 0 where
    bare : {lo hi : Address} {p : ObjectReference} → hi ≡ lo → Grown w lo hi zero p
    split :
        {lo middle hi : Address} {depth : ℕ} {p : ObjectReference} (r rest : Address)
        → r ≡ lo + node.size
        → rest ≡ r + node.size
        → w.memory (p + node.left) ≡ lo
        → w.memory (p + node.right) ≡ r
        → ref_byte I w lo ≡ ok 195
        → ref_byte I w r ≡ ok 195
        → Grown w rest middle depth lo
        → Grown w middle hi depth r
        → Grown w lo hi (suc depth) p

  -- From `w` to `w'` the bytes behind the cursor have been handed out; of what was there before only
  -- the two pointers of `x` may have changed.
  pub record Filled (x : Address) (bytes : ℕ) (w w' : World I) : Type 0 where
    pub cursor : w'.heap.local.cursor ≡ w.heap.local.cursor + bytes
    pub start : w'.heap.space.start ≡ w.heap.space.start
    pub described :
        (p : ObjectReference)
        → w.heap.space.start ≤ p
        → p + 8 ≤ w.heap.local.cursor
        → ref_byte I w' p ≡ ref_byte I w p
    pub words :
        (a : Address)
        → a < w.heap.local.cursor
        → a ≢ x + node.left
        → a ≢ x + node.right
        → w'.memory a ≡ w.memory a

  module _ (shape : IsNodeType node) where
    Grown-bounds :
        {w : World I} {lo hi : Address} {depth : ℕ} {p : ObjectReference}
        → Grown w lo hi depth p
        → lo ≤ hi
    Grown-bounds (bare e) = omega arith
    Grown-bounds (split r rest e e' at_l at_r byte_l byte_r g h) =
        omega (arith, Grown-bounds g, Grown-bounds h)

    Grown-Filled :
        {x : Address} {bytes : ℕ} {w w' : World I} {lo hi : Address} {depth : ℕ}
        {p : ObjectReference}
        → Filled x bytes w w'
        → x + node.size ≤ lo
        → (p + node.size ≤ x) ⊎ (x + node.size ≤ p)
        → p + node.size ≤ w.heap.local.cursor
        → hi ≤ w.heap.local.cursor
        → w.heap.space.start ≤ lo
        → Grown w lo hi depth p
        → Grown w' lo hi depth p
    Grown-Filled f apart off low high start (bare e) = bare e
    Grown-Filled f apart off low high start (split r rest e e' at_l at_r byte_l byte_r g h) =
        let g_le = Grown-bounds g in
        let h_le = Grown-bounds h in
        split r rest e e'
          (f.words _ (omega (arith, shape.left, shape.right))
              (λ k. absurd (omega (arith, k, off, shape.left, shape.right)))
              (λ k. absurd (omega (arith, k, off, shape.left, shape.right)))
            ∙ at_l)
          (f.words _ (omega (arith, shape.left, shape.right))
              (λ k. absurd (omega (arith, k, off, shape.left, shape.right)))
              (λ k. absurd (omega (arith, k, off, shape.left, shape.right)))
            ∙ at_r)
          (f.described _ (omega arith) (omega (arith, shape.left, shape.right)) ∙ byte_l)
          (f.described r (omega arith) (omega (arith, shape.left, shape.right)) ∙ byte_r)
          (Grown-Filled f (omega arith) (omega arith) (omega arith) (omega arith) (omega arith) g)
          (Grown-Filled f (omega arith) (omega arith) (omega arith) (omega arith) (omega arith) h)

    plus-field : (x k : ℕ) → x + k < usize_mod → plus x k ≡ x + k
    unfolding plus
    plus-field x k lt = omega arith

    pub written-HasRoom :
        {bytes : ℕ} {w : World I} (a v : ℕ) → HasRoom I bytes w → HasRoom I bytes (write I a v w)
    written-HasRoom a v h = record {
      mapped = h.mapped;
      known = h.known;
      aligned = h.aligned;
      low = h.low;
      room = h.room;
      high = h.high;
    }

    -- The two children of `x` are allocated and filled, one after the other.
    module _ (x : Address) {w w1 w2 w4 w5 : World I} {n m : ℕ}
        (low : x + node.size ≤ w.heap.local.cursor) (top : w.heap.local.cursor < usize_mod)
        (start_low : w.heap.space.start ≤ w.heap.local.cursor) (b1 : Built I node.size w w1)
        (b2 : Built I node.size (write I (plus x node.left) w.heap.local.cursor w1) w2)
        (f4 : Filled w.heap.local.cursor n (write I (plus x node.right) w1.heap.local.cursor w2) w4)
        (f5 : Filled w1.heap.local.cursor m w4 w5) where
      left_at : plus x node.left ≡ x + node.left
      left_at = plus-field x node.left (omega (arith, shape.left, shape.right))

      right_at : plus x node.right ≡ x + node.right
      right_at = plus-field x node.right (omega (arith, shape.left, shape.right))

      pub left_set :
          with_thread (plus x node.right) w1.heap.local.cursor w2.memory (plus x node.left)
          ≡ w.heap.local.cursor
      left_set =
          with_thread_other (plus x node.right) w1.heap.local.cursor w2.memory (plus x node.left)
            (omega (arith, left_at, right_at, shape.left))
          ∙ b2.words (plus x node.left) (omega (arith, left_at, b1.cursor, shape.left, shape.right))
          ∙ with_thread_self (plus x node.left) w.heap.local.cursor w1.memory

      pub right_set : w4.memory (plus x node.right) ≡ w1.heap.local.cursor
      right_set =
          f4.words (plus x node.right) (omega (arith, right_at, b1.cursor, b2.cursor, shape.right))
            (λ k. absurd (omega (arith, k, right_at, shape.left, shape.right)))
            (λ k. absurd (omega (arith, k, right_at, shape.left, shape.right)))
          ∙ with_thread_self (plus x node.right) w1.heap.local.cursor w2.memory

      pub children-Filled : Filled x (node.size + (node.size + (n + m))) w w5
      children-Filled = record {
        cursor = omega (arith, b1.cursor, b2.cursor, f4.cursor, f5.cursor);
        start = f5.start ∙ f4.start ∙ b2.start ∙ b1.start;
        described = λ p lo hi.
            f5.described p (omega (arith, lo, b1.start, b2.start, f4.start))
              (omega (arith, hi, b1.cursor, b2.cursor, f4.cursor))
            ∙ f4.described p (omega (arith, lo, b1.start, b2.start))
                (omega (arith, hi, b1.cursor, b2.cursor))
            ∙ b2.described p (omega (arith, lo, b1.start)) (omega (arith, hi, b1.cursor))
            ∙ b1.described p lo hi;
        words = λ a lt out out'.
            f5.words a (omega (arith, lt, b1.cursor, b2.cursor, f4.cursor))
              (λ k. absurd (omega (arith, k, lt, b1.cursor)))
              (λ k. absurd (omega (arith, k, lt, b1.cursor)))
            ∙ f4.words a (omega (arith, lt, b1.cursor, b2.cursor))
                (λ k. absurd (omega (arith, k, lt))) (λ k. absurd (omega (arith, k, lt)))
            ∙ with_thread_other (plus x node.right) w1.heap.local.cursor w2.memory a
                (λ k. out' (sym k ∙ right_at))
            ∙ b2.words a (omega (arith, lt, b1.cursor))
            ∙ with_thread_other (plus x node.left) w.heap.local.cursor w1.memory a
                (λ k. out (sym k ∙ left_at))
            ∙ b1.words a lt;
      }

      pub children-Grown :
          (depth : ℕ)
          → ref_byte I w1 w.heap.local.cursor ≡ ok 195
          → ref_byte I w2 w1.heap.local.cursor ≡ ok 195
          → Grown w4 w2.heap.local.cursor w4.heap.local.cursor depth w.heap.local.cursor
          → Grown w5 w4.heap.local.cursor w5.heap.local.cursor depth w1.heap.local.cursor
          → Grown w5 w.heap.local.cursor w5.heap.local.cursor (suc depth) x
      children-Grown depth byte_l byte_r g4 g5 =
          split w1.heap.local.cursor w2.heap.local.cursor b1.cursor b2.cursor
            (ap w5.memory (sym left_at)
              ∙ f5.words (plus x node.left)
                  (omega (arith, left_at, b1.cursor, b2.cursor, f4.cursor, shape.left, shape.right))
                  (λ k. absurd (omega (arith, k, left_at, b1.cursor, shape.left, shape.right)))
                  (λ k. absurd (omega (arith, k, left_at, b1.cursor, shape.left, shape.right)))
              ∙ f4.words (plus x node.left)
                  (omega (arith, left_at, b1.cursor, b2.cursor, shape.left, shape.right))
                  (λ k. absurd (omega (arith, k, left_at, shape.left, shape.right)))
                  (λ k. absurd (omega (arith, k, left_at, shape.left, shape.right)))
              ∙ left_set)
            (ap w5.memory (sym right_at)
              ∙ f5.words (plus x node.right)
                  (omega
                    (arith, right_at, b1.cursor, b2.cursor, f4.cursor, shape.left, shape.right))
                  (λ k. absurd (omega (arith, k, right_at, b1.cursor, shape.left, shape.right)))
                  (λ k. absurd (omega (arith, k, right_at, b1.cursor, shape.left, shape.right)))
              ∙ right_set)
            (f5.described w.heap.local.cursor
                (omega (arith, start_low, b1.start, b2.start, f4.start))
                (omega (arith, b1.cursor, b2.cursor, f4.cursor, shape.left, shape.right))
              ∙ f4.described w.heap.local.cursor (omega (arith, start_low, b1.start, b2.start))
                  (omega (arith, b1.cursor, b2.cursor, shape.left, shape.right))
              ∙ b2.described w.heap.local.cursor (omega (arith, start_low, b1.start))
                  (omega (arith, b1.cursor, shape.left, shape.right))
              ∙ byte_l)
            (f5.described w1.heap.local.cursor
                (omega (arith, start_low, b1.start, b1.cursor, b2.start, f4.start))
                (omega (arith, b2.cursor, f4.cursor, shape.left, shape.right))
              ∙ f4.described w1.heap.local.cursor
                  (omega (arith, start_low, b1.start, b1.cursor, b2.start))
                  (omega (arith, b2.cursor, shape.left, shape.right))
              ∙ byte_r)
            (Grown-Filled f5 (omega (arith, b2.cursor)) (inl (omega (arith, b1.cursor)))
              (omega (arith, b1.cursor, b2.cursor, f4.cursor)) (omega arith)
              (omega (arith, start_low, b1.start, b1.cursor, b2.start, b2.cursor, f4.start)) g4)
            g5
