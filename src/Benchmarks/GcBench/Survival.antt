-- ===== src/Benchmarks/GcBench/Survival.antt =====
-- src/rust_benchmarks/gcbench.rs: a collection keeps the trees.
use Prim.Native.Nat.{ℕ, ◌+◌, ◌-◌, ◌/◌, ◌<◌}
use mathlib.Core.Path.{◌≡◌, refl, sym, ap, subst}
use mathlib.Core.Logic.{inl, inr}
use mathlib.Core.Bool.{true}
use mathlib.Core.List.{List, [], ◌∷◌, ◌++◌}
use native.Mathlib.Omega.{arith}
use immix_rust.Prelude.{ok}
use immix_rust.Prelude.Members.{Has, Has-split, Has-append}
use immix_rust.Common.Address.{Address, ObjectReference, plus, usize_mod}
use immix_rust.Common.TraceMap.{TraceMap}
use immix_rust.Crossbeam.{Injector}
use immix_rust.Immix.Block.{ImmixBlock}
use immix_rust.Gc.Trace.Reachable.{Edge, Reachable, root, along, IsFresh}
use immix_rust.Crossbeam.Batch.{BatchInjector}
use immix_rust.Immix.Sizes.{bytes_in_line}
use immix_rust.Immix.Space.{ImmixSpace}
use immix_rust.Immix.LineMark.Marking.{IsLiveAt}
use immix_rust.Gc.Collection.{Collects}
use immix_rust.Gc.Collection.Runs.{Collectable, Collects-keeps}
use immix_rust.Common.TraceMap.{is_untraced_and_valid}
use immix_rust.Benchmarks.GcBench.{node, World}
use immix_rust.Benchmarks.GcBench.Rooms.{IsNodeType, ref_byte}
use immix_rust.Benchmarks.GcBench.Trees.{Tree, leaf, branch, Tree-bounds}

plus-small : (p k : ℕ) → p + k < usize_mod → plus p k ≡ p + k
unfolding plus
plus-small p k lt = omega arith

node-IsNodeType : IsNodeType node
node-IsNodeType = record { left = omega arith; right = omega arith; whole = refl }

module _ (I : Injector ImmixBlock) (w : World I) (before : TraceMap) where
  abbrev Edges : ObjectReference → ObjectReference → Type 0
  Edges = Edge w.heap.space.alloc_map.ptr w.heap.space.start w.memory before

  abbrev pub Reaches : List ObjectReference → ObjectReference → Type 0
  Reaches = Reachable w.heap.space.alloc_map.ptr w.heap.space.start w.memory before

  Edge-of_offset :
      (p : ObjectReference) (k : ℕ)
      → ref_byte I w p ≡ ok 195
      → Has k (0 ∷ 8 ∷ [])
      → p + k < usize_mod
      → Edges p (w.memory (p + k))
  Edge-of_offset p k byte has lt = record {
    value = 195;
    found = 0 ∷ 8 ∷ [];
    offset = k;
    byte = byte;
    bits = refl;
    has = has;
    at = ap w.memory (sym (plus-small p k lt));
  }

  abbrev pub nodes :
      {lo hi : Address} {depth : ℕ} {p : ObjectReference}
      → Tree I node w lo hi depth p
      → List ObjectReference
  nodes {p} (leaf e byte) = p ∷ []
  nodes {p} (branch l r e byte at_l at_r) = p ∷ nodes l ++ nodes r

  root_of :
      {lo hi : Address} {depth : ℕ} {p : ObjectReference} (t : Tree I node w lo hi depth p)
      → Has p (nodes t)
  root_of (leaf e byte) = inl refl
  root_of (branch l r e byte at_l at_r) = inl refl

  module _ (roots : List ObjectReference) where
    child :
        (p : ObjectReference) (k : ℕ) {c : ObjectReference}
        → ref_byte I w p ≡ ok 195
        → Has k (0 ∷ 8 ∷ [])
        → p + k < usize_mod
        → w.memory (p + k) ≡ c
        → IsFresh w.heap.space.alloc_map.ptr w.heap.space.start w.memory before c
        → Reaches roots p
        → Reaches roots c
    child p k byte has lt at new r =
        along r (subst (Edges p) at (Edge-of_offset p k byte has lt)) new

    -- The trace follows all nodes of a tree from its root.
    Tree-Reachable :
        {lo hi : Address} {depth : ℕ} {p : ObjectReference} (t : Tree I node w lo hi depth p)
        → hi < usize_mod
        → ((q : ObjectReference)
            → Has q (nodes t)
            → IsFresh w.heap.space.alloc_map.ptr w.heap.space.start w.memory before q)
        → Reaches roots p
        → (q : ObjectReference) → Has q (nodes t)
        → Reaches roots q
    Tree-Reachable (leaf e byte) high fresh r q (inl same) = subst (Reaches roots) (sym same) r
    Tree-Reachable (leaf e byte) high fresh r q (inr past) = elim past [ ]
    Tree-Reachable (branch l r e byte at_l at_r) high fresh reach q (inl same) =
        subst (Reaches roots) (sym same) reach
    Tree-Reachable {p} (branch l r e byte at_l at_r) high fresh reach q (inr has) =
        let (l_low, l_high) = Tree-bounds I node node-IsNodeType l in
        let (r_low, r_high) = Tree-bounds I node node-IsNodeType r in
        elim (Has-split q (nodes l) (nodes r) has) [
          | inl in_left ↦
              Tree-Reachable l (omega arith)
                (λ c h. fresh c (inr (Has-append c (nodes l) (nodes r) (inl h))))
                (child p 0 byte (inl refl) (omega arith) at_l
                  (fresh _ (inr (Has-append _ (nodes l) (nodes r) (inl (root_of l))))) reach)
                q in_left
          | inr in_right ↦
              Tree-Reachable r (omega arith)
                (λ c h. fresh c (inr (Has-append c (nodes l) (nodes r) (inr h))))
                (child p 8 byte (inr (inl refl)) (omega arith) at_r
                  (fresh _ (inr (Has-append _ (nodes l) (nodes r) (inr (root_of r))))) reach)
                q in_right
        ]

-- A collection keeps a tree of the benchmark: if its root is among the roots, and its words were not
-- traced before, then after a collection that returns the lines of all its nodes are live, and their
-- words count as not traced in the next one. The conditions are those of `Collects-keeps`; the memory is
-- as the collection finds it.
pub Tree-kept :
    (I : Injector ImmixBlock) (J : BatchInjector ObjectReference) (cpus : ℕ)
    (roots : List ObjectReference) (w : World I) (s' : ImmixSpace I)
    (c : Collects I J cpus roots w.heap.space s')
    → Collectable I J c.word cpus roots w.heap.space
    → w.memory ≡ c.word
    → {lo hi : Address} {depth : ℕ} {p : ObjectReference} (t : Tree I node w lo hi depth p)
    → hi < usize_mod
    → Has p roots
    → ((q : ObjectReference)
        → Has q (nodes I w w.heap.space.trace_map t)
        → is_untraced_and_valid w.heap.space.trace_map q ≡ true)
    → (q : ObjectReference) → Has q (nodes I w w.heap.space.trace_map t)
    → IsLiveAt s'.line_mark_table.cells ((q - w.heap.space.start) / bytes_in_line)
      × (is_untraced_and_valid s'.trace_map q ≡ true)
Tree-kept I J cpus roots w s' c ready same t high at_root fresh q has =
    let r = Tree-Reachable I w w.heap.space.trace_map roots t high fresh (root at_root) q has in
    Collects-keeps I J cpus roots w.heap.space s' c ready q (
      subst
        (λ memory.
          Reachable w.heap.space.alloc_map.ptr w.heap.space.start memory w.heap.space.trace_map
            roots q)
        same r)
