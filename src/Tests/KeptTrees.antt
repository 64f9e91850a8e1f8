-- ===== src/Tests/KeptTrees.antt =====
-- src/rust_benchmarks: a collection of a tree of three nodes.
use Prim.Native.Nat.{ℕ, ◌+◌, ◌-◌, ◌*◌, ◌/◌, ◌<◌}
use mathlib.Core.Path.{◌≡◌, refl, sym, ap, subst, ◌∙◌}
use mathlib.Core.Logic.{◌⊎◌, inl, inr}
use mathlib.Core.Bool.{Bool, true, false}
use mathlib.Core.List.{List, [], ◌∷◌}
use native.Mathlib.Omega.{arith}
use immix_rust.Prelude.{replicate, if◌then◌else◌, ◌==◌}
use immix_rust.Prelude.Families.{with_thread}
use immix_rust.Common.Address.{Address, ObjectReference, plus}
use immix_rust.Common.SafeAddressMap.{normalized_index}
use immix_rust.Common.TraceMap.{mark_as_traced, is_untraced_and_valid}
use immix_rust.Common.TraceMap.Marks.{cell}
use immix_rust.Prelude.Members.{Has}
use immix_rust.ObjectModel.{get_ref_byte}
use immix_rust.Immix.Sizes.{bytes_in_line}
use immix_rust.Immix.LineMark.{mark_line_live}
use immix_rust.Immix.LineMark.Marking.{IsLiveAt}
use immix_rust.Immix.Space.{ImmixSpace}
use immix_rust.Immix.Space.Sweep.{sweep}
use immix_rust.Gc.Trace.{
  Pc, Shared, Move, returned, pop_none, steal, steal_empty, leave, see_none, return, trace, mark,
  read, edge, push, edge_skipped, scanned, Workers, launched, by, Reach, start, later,
}
use immix_rust.Gc.Trace.Reachable.{is_failed, Reachable, root, along}
use immix_rust.Gc.Trace.Unfailing.{IsObject, trace-unfailing}
use immix_rust.Gc.Collection.{Collects, sweep_and_flip}
use immix_rust.Gc.Collection.Runs.{Collectable}
use immix_rust.Benchmarks.GcBench.{node}
use immix_rust.Benchmarks.GcBench.Trees.{Tree, leaf, branch}
use immix_rust.Benchmarks.GcBench.Survival.{Tree-kept}
use immix_rust.Tests.Spaces.{Blocks}
use immix_rust.Tests.Traces.{References, flipped_map, two_lines_table, two_lines_table-IsTable}
use immix_rust.Tests.Collections.{flipped_map-bytes}
use immix_rust.Tests.Trees.{world_of, space_of}

abbrev encodings : List ℕ
encodings = 195 ∷ 0 ∷ 0 ∷ 195 ∷ 0 ∷ 0 ∷ 195 ∷ replicate 57 0

-- The node at 560 points to those at 512 and 536.
abbrev memory : Address → ℕ
memory a = if a == 560 then 512 else if a == 568 then 536 else 0

abbrev Run : Workers References → Type 0
Run =
    Reach References encodings 512 1024 memory 1
      (launched References 1 (560 ∷ []) flipped_map two_lines_table)

infixl 4 ◌▸◌
◌▸◌ :
    {v : Workers References} {m : Shared References} {p : Pc}
    → Run v
    → Move References encodings 512 1024 memory v.shared (v.pc 0) m p
    → Run (record { shared = m; pc = with_thread 0 p v.pc })
r ▸ move = later r (by 0 (omega arith) move)

-- The worker visits the root, which pushes its two children, and then the children.
run : (w : Workers References) × Run w × (w.pc 0 ≡ returned)
unfolding mark_as_traced mark_line_live get_ref_byte is_untraced_and_valid plus
run =
    let visited_root =
      start
      ▸ pop_none
      ▸ steal {batch = []} refl
      ▸ trace refl refl
      ▸ mark refl
      ▸ read refl refl
      ▸ edge refl
      ▸ push
      ▸ edge refl
      ▸ push
      ▸ scanned refl in
    let visited_left =
      visited_root
      ▸ pop_none
      ▸ steal {batch = []} refl
      ▸ trace refl refl
      ▸ mark refl
      ▸ read refl refl
      ▸ edge_skipped refl
      ▸ edge_skipped refl
      ▸ scanned refl in
    let visited_right =
      visited_left
      ▸ pop_none
      ▸ steal {batch = []} refl
      ▸ trace refl refl
      ▸ mark refl
      ▸ read refl refl
      ▸ edge_skipped refl
      ▸ edge_skipped refl
      ▸ scanned refl in
    let left = visited_right ▸ pop_none ▸ steal_empty refl ▸ leave ▸ see_none refl ▸ return refl in
    (_, left, refl)

collected :
    (s' : ImmixSpace Blocks) × (c : Collects Blocks References 1 (560 ∷ []) (space_of encodings) s')
    × (memory ≡ c.word)
unfolding sweep sweep_and_flip
collected = (
  _,
  record {
    word = memory;
    workers = run.0;
    traced = run.1;
    joined = λ i below. ap run.0.pc (only i below) ∙ run.2;
    fuel = 1;
    finished = refl;
  },
  refl,
)
  where
    only : (i : ℕ) → i < 1 → i ≡ 0
    only i below = omega arith

zero_not_fresh : is_untraced_and_valid flipped_map 0 ≡ false
unfolding is_untraced_and_valid
zero_not_fresh = refl

memory_values : (a : Address) → (memory a ≡ 512) ⊎ (memory a ≡ 536) ⊎ (memory a ≡ 0)
memory_values a = ground arith

abbrev Visits : ObjectReference → Type 0
Visits = Reachable encodings 512 memory flipped_map (560 ∷ [])

three_objects : {o : ObjectReference} → Visits o → (o ≡ 560) ⊎ (o ≡ 512) ⊎ (o ≡ 536)
three_objects (root (inl e)) = inl e
three_objects (root (inr past)) = elim past [ ]
three_objects (along {o} {c} r e new) = elim (memory_values (plus o e.offset)) [
  | inl first ↦ inr (inl (e.at ∙ first))
  | inr (inl second) ↦ inr (inr (e.at ∙ second))
  | inr (inr nothing) ↦ absurd (
      clash zero_not_fresh
        (subst (λ v. is_untraced_and_valid flipped_map v ≡ true) (e.at ∙ nothing) new))
]
  where
    clash : {b : Bool} → b ≡ false → b ≡ true → ⊥
    clash f t = cc

by_cell :
    (o : ObjectReference) → (o ≡ 560) ⊎ (o ≡ 512) ⊎ (o ≡ 536) → o ≡ 512 + 8 * cell flipped_map o
unfolding normalized_index
by_cell o cases = omega arith

tree-Collectable : Collectable Blocks References memory 1 (560 ∷ []) (space_of encodings)
tree-Collectable = record {
  apart =
      λ o p r s same. by_cell o (three_objects r) ∙ omega arith ∙ sym (by_cell p (three_objects s));
  some_cpu = omega arith;
  few = omega arith;
  valid = two_lines_table-IsTable;
  begins = refl;
  ends = omega arith;
  binary = record { state = omega arith; bytes = flipped_map-bytes };
  fit = tt;
}

unfoldable three_nodes : Tree Blocks node (world_of encodings memory) 512 584 1 560
unfolding get_ref_byte
three_nodes = branch (leaf refl refl) (leaf {hi = 560} {p = 536} refl refl) refl refl refl refl

nodes_fresh :
    (q : ObjectReference)
    → Has q (560 ∷ 512 ∷ 536 ∷ [])
    → is_untraced_and_valid flipped_map q ≡ true
unfolding is_untraced_and_valid
nodes_fresh q (inl e) = rw e refl
nodes_fresh q (inr (inl e)) = rw e refl
nodes_fresh q (inr (inr (inl e))) = rw e refl
nodes_fresh q (inr (inr (inr past))) = elim past [ ]

Tree-kept_example :
    IsLiveAt collected.0.line_mark_table.cells ((536 - 512) / bytes_in_line)
    × (is_untraced_and_valid collected.0.trace_map 536 ≡ true)
unfolding three_nodes
Tree-kept_example =
    Tree-kept Blocks References 1 (560 ∷ []) (world_of encodings memory) collected.0 collected.1
      (subst (λ m. Collectable Blocks References m 1 (560 ∷ []) (space_of encodings)) collected.2
        tree-Collectable)
      collected.2 three_nodes (omega arith) (inl refl) nodes_fresh 536 (inr (inr (inl refl)))

node-IsObject :
    (o : ObjectReference)
    → (o ≡ 560) ⊎ (o ≡ 512) ⊎ (o ≡ 536)
    → IsObject encodings 512 memory flipped_map References 1024 o
unfolding get_ref_byte normalized_index
node-IsObject o cases = record {
  low = omega arith;
  high = omega arith;
  mapped = omega arith;
  value = 195;
  found = 0 ∷ 8 ∷ [];
  byte = elim cases [ inl e ↦ rw e refl | inr (inl e) ↦ rw e refl | inr (inr e) ↦ rw e refl ];
  bits = refl;
  short = refl;
}

trace-unfailing_example : is_failed (run.0.pc 0) ≡ false
trace-unfailing_example =
    trace-unfailing encodings 512 memory flipped_map References 1024 1 (560 ∷ [])
      (λ o r. node-IsObject o (three_objects r)) tree-Collectable.apart (omega arith)
      two_lines_table two_lines_table-IsTable refl (omega arith) run.1 0 (omega arith)
