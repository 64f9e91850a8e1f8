-- ===== src/Tests/Traces.antt =====
-- src/heap/gc/multi_thread_trace.rs: one worker traces an object that refers to another.
use Prim.Native.Nat.{ℕ, zero, suc, ◌≤◌}
use mathlib.Core.Path.{◌≡◌, refl, sym, ap, subst, ◌∙◌}
use mathlib.Core.Logic.{◌≢◌, ◌⊎◌, inl, inr}
use mathlib.Core.Bool.{Bool, true, false}
use mathlib.Core.List.{List, [], ◌∷◌}
use native.Mathlib.Omega.{arith}
use mathlib.Core.Option.{some}
use immix_rust.Prelude.{All, All-get, replicate, if◌then◌else◌, ◌==◌}
use immix_rust.Prelude.Families.{tally, with_thread}
use immix_rust.Common.Address.{Address, plus, ObjectReference}
use immix_rust.Common.TraceMap.{TraceMap, mark_as_traced, is_untraced_and_valid}
use immix_rust.Crossbeam.Batch.{BatchInjector, list_batch_injector}
use immix_rust.Immix.LineMark.{free, LineMarkTable, mark_line_live}
use immix_rust.ObjectModel.{get_ref_byte}
use immix_rust.Gc.Trace.{
  Pc, Shared, Move, returned, pop_none, steal, steal_empty, leave, see_none, return, trace, mark,
  read, edge, push, edge_skipped, scanned, Workers, launched, by, Reach, start, later,
}
use immix_rust.Common.SafeAddressMap.{normalized_index}
use immix_rust.Common.SafeAddressMap
use immix_rust.Common.TraceMap.Marks.{IsTraced, cell, IsBinary}
use immix_rust.Immix.LineMark.Marking.{IsTable}
use immix_rust.Gc.Trace.Reachable.{Edge, Reachable, root, along, IsLive}
use immix_rust.Gc.Trace.Progress.References.{Apart}
use immix_rust.Gc.Trace.Completeness.{Reachable-IsTraced, traced-Reachable}
use immix_rust.Gc.Trace.Counting.{is_counted, Quiet, active_threads-tally, returned-Quiet}

abbrev pub References : BatchInjector ObjectReference
References = list_batch_injector ObjectReference

-- A space of 64 words from 512 on, with objects at 512 and 520 of one reference each.
abbrev pub encodings : List ℕ
encodings = 193 ∷ 193 ∷ replicate 62 0

-- The first object refers to the second, and that one to nothing.
abbrev pub word : Address → ℕ
word a = if a == 512 then 520 else 0

-- After a collection that visited nothing.
abbrev pub flipped_map : TraceMap
flipped_map = record { map = record { offset = 512; addresses = replicate 64 0 }; mark_state = 1 }

abbrev pub two_lines_table : LineMarkTable
two_lines_table = record { space_start = 512; cells = free ∷ free ∷ []; len = 2 }

abbrev traced_map : TraceMap
traced_map = record {
  map = record { offset = 512; addresses = 1 ∷ 1 ∷ replicate 62 0 };
  mark_state = 1;
}

abbrev Run : Workers References → Type 0
Run =
    Reach References encodings 512 1024 word 1
      (launched References 1 (512 ∷ []) flipped_map two_lines_table)

infixl 4 ◌▸◌
◌▸◌ :
    {v : Workers References} {m : Shared References} {p : Pc}
    → Run v
    → Move References encodings 512 1024 word v.shared (v.pc 0) m p
    → Run (record { shared = m; pc = with_thread 0 p v.pc })
r ▸ move = later r (by 0 (omega arith) move)

pub run : (w : Workers References) × Run w × (w.pc 0 ≡ returned) × (w.shared.trace_map ≡ traced_map)
unfolding mark_as_traced mark_line_live get_ref_byte is_untraced_and_valid plus
run =
    let visited_root =
      start
      ▸ pop_none
      ▸ steal {batch = []} refl
      ▸ trace refl refl
      ▸ mark refl
      ▸ read refl refl
      ▸ edge refl
      ▸ push
      ▸ scanned refl in
    let visited_both =
      visited_root
      ▸ pop_none
      ▸ steal {batch = []} refl
      ▸ trace refl refl
      ▸ mark refl
      ▸ read refl refl
      ▸ edge_skipped refl
      ▸ scanned refl in
    let left = visited_both ▸ pop_none ▸ steal_empty refl ▸ leave ▸ see_none refl ▸ return refl in
    (_, left, refl, refl)

returned-Quiet_example : Quiet References encodings 512 1024 word 1 run.0.shared run.0.pc
returned-Quiet_example =
    returned-Quiet References encodings 512 1024 word 1 (omega arith) (omega arith) (512 ∷ [])
      flipped_map two_lines_table run.1 0 (omega arith) run.2

active_threads-tally_example : run.0.shared.active_threads ≡ tally is_counted 1 run.0.pc
active_threads-tally_example =
    active_threads-tally References encodings 512 1024 word 1 (omega arith) (omega arith) (512 ∷ [])
      flipped_map two_lines_table run.1

zero_not_fresh : is_untraced_and_valid flipped_map 0 ≡ false
unfolding is_untraced_and_valid
zero_not_fresh = refl

word_values : (a : Address) → (word a ≡ 520) ⊎ (word a ≡ 0)
word_values a = ground arith

abbrev pub Visits : ObjectReference → Type 0
Visits = Reachable encodings 512 word flipped_map (512 ∷ [])

two_objects : {o : ObjectReference} → Visits o → (o ≡ 512) ⊎ (o ≡ 520)
two_objects (root (inl e)) = inl e
two_objects (root (inr none)) = elim none [ ]
two_objects (along {o} {c} r e new) = elim (word_values (plus o e.offset)) [
  | inl second ↦ inr (e.at ∙ second)
  | inr nothing ↦ absurd (
      clash zero_not_fresh
        (subst (λ v. is_untraced_and_valid flipped_map v ≡ true) (e.at ∙ nothing) new))
]
  where
    clash : {b : Bool} → b ≡ false → b ≡ true → ⊥
    clash f t = cc

cells_apart : cell flipped_map 512 ≢ cell flipped_map 520
unfolding normalized_index
cells_apart e = omega arith

pub objects-Apart : Apart encodings 512 word flipped_map References 1024 1 (512 ∷ [])
objects-Apart o p r s same = elim (two_objects r) [
  | inl first ↦ elim (two_objects s) [
    | inl first' ↦ first ∙ sym first'
    | inr second' ↦
        absurd
          (cells_apart (sym (ap (cell flipped_map) first) ∙ same ∙ ap (cell flipped_map) second'))
  ]
  | inr second ↦ elim (two_objects s) [
    | inl first' ↦
        absurd (
          cells_apart
            (sym (ap (cell flipped_map) first') ∙ sym same ∙ ap (cell flipped_map) second))
    | inr second' ↦ second ∙ sym second'
  ]
]

pub two_lines_table-IsTable : IsTable two_lines_table
two_lines_table-IsTable = record { sized = refl; low = omega arith }

first-Edge : Edge encodings 512 word flipped_map 512 520
unfolding get_ref_byte plus
first-Edge = record {
  value = 193;
  found = 0 ∷ [];
  offset = 0;
  byte = refl;
  bits = refl;
  has = inl refl;
  at = refl;
}

second_fresh : is_untraced_and_valid flipped_map 520 ≡ true
unfolding is_untraced_and_valid
second_fresh = refl

second_traced : is_untraced_and_valid run.0.shared.trace_map 520 ≡ false
unfolding is_untraced_and_valid
second_traced = subst (λ t. is_untraced_and_valid t 520 ≡ false) (sym run.3) refl

pub second_reachable : Visits 520
second_reachable = along (root (inl refl)) first-Edge second_fresh

Reachable-IsTraced_example :
    IsTraced run.0.shared.trace_map 520
    × IsLive encodings 512 word flipped_map References run.0.shared 520
Reachable-IsTraced_example =
    Reachable-IsTraced encodings 512 word flipped_map References 1024 1 (512 ∷ []) objects-Apart
      (omega arith) (omega arith) two_lines_table two_lines_table-IsTable refl (omega arith) run.1 0
      (omega arith) run.2 520 second_reachable

traced-Reachable_example :
    (o : ObjectReference) × Visits o × (cell flipped_map o ≡ cell flipped_map 520)
traced-Reachable_example =
    traced-Reachable encodings 512 word flipped_map References 1024 1 (512 ∷ []) objects-Apart
      (omega arith) (omega arith) two_lines_table two_lines_table-IsTable refl (omega arith) run.1 0
      (omega arith) run.2 520 second_fresh second_traced

zeros : (n : ℕ) → All (λ b. b ≤ 1) (replicate n 0)
zeros zero = tt
zeros (suc n) = (omega arith, zeros n)

traced_map-bytes : (p v : ℕ) → SafeAddressMap.get traced_map.map p ≡ some v → v ≤ 1
unfolding SafeAddressMap.get
traced_map-bytes p v e =
    All-get (λ b. b ≤ 1) traced_map.map.addresses (normalized_index traced_map.map p) v
      (omega arith, (omega arith, zeros 62)) e

pub run-IsBinary : IsBinary run.0.shared.trace_map
run-IsBinary = subst IsBinary (sym run.3) (record { state = omega arith; bytes = traced_map-bytes })
