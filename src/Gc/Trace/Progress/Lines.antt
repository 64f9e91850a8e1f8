-- ===== src/Gc/Trace/Progress/Lines.antt =====
-- src/heap/gc/multi_thread_trace.rs: one access of a worker and the line marks.
use Prim.Native.Nat.{ℕ, ◌+◌, ◌-◌, ◌*◌, ◌/◌, ◌≤◌}
use mathlib.Core.Path.{◌≡◌, sym, subst, ◌∙◌}
use mathlib.Core.Logic.{◌⊎◌, inl, inr}
use mathlib.Core.Bool.{Bool, true}
use mathlib.Core.List.{List}
use native.Mathlib.Omega.{arith}
use immix_rust.Prelude.{ok}
use immix_rust.Prelude.Families.{with_thread}
use immix_rust.Common.Address.{Address, ObjectReference}
use immix_rust.Common.TraceMap.{TraceMap}
use immix_rust.Crossbeam.Batch.{BatchInjector}
use immix_rust.Immix.Sizes.{bytes_in_line}
use immix_rust.Immix.LineMark.{LineMarkTable, mark_line_live}
use immix_rust.Immix.LineMark.Marking.{
  IsTable, IsLiveAt, Marked, Marked-IsTable, Marked-IsLiveAt, mark_line_live-Marked,
}
use immix_rust.Gc.Trace.{Pc, Shared}
use immix_rust.Gc.Trace.Reachable.{marked_at, Reachable, IsLive}
use immix_rust.Gc.Trace.Effects.{Move-table}
use immix_rust.Gc.Trace.Progress.References.{Moved, knows}

module _ {alloc_map : List ℕ} {space_start : Address} {word : Address → ℕ} {before : TraceMap}
    {I : BatchInjector ObjectReference} {space_end : Address} {cpus : ℕ}
    {work_stack : List ObjectReference} {m m' : Shared I} {pc : ℕ → Pc}
    {done : ObjectReference → Bool} {i : ℕ} {p' : Pc}
    (v : Moved alloc_map space_start word before I space_end cpus work_stack m m' pc done i
      p') where
  open v use {apart, t, below, move, alive}

  abbrev next : ℕ → Pc
  next = with_thread i p' pc

  abbrev done' : ObjectReference → Bool
  done' = marked_at p' done

  abbrev Live : Shared I → ObjectReference → Type 0
  Live = IsLive alloc_map space_start word before I

  abbrev Reached : ObjectReference → Type 0
  Reached = Reachable alloc_map space_start word before work_stack

  -- What the marks of the lines of an object in the space do to the table.
  pub lines_marked :
      (o : ObjectReference)
      → done o ≡ true
      → mark_line_live m.line_mark_table o ≡ ok m'.line_mark_table
      → Marked m.line_mark_table m'.line_mark_table ((o - space_start) / bytes_in_line)
  lines_marked o d run =
      let (lo, hi) = t.inside o d in
      let (u, run', marked) =
        mark_line_live-Marked m.line_mark_table o t.table
          (omega (arith, t.table_start), omega (arith, t.table_start, t.table_end)) in
      subst (λ v. Marked m.line_mark_table v ((o - space_start) / bytes_in_line))
        (ok_inj (sym run' ∙ run))
        (subst (λ k. Marked m.line_mark_table u ((o - k) / bytes_in_line)) t.table_start marked)
    where
      ok_inj : {v w : LineMarkTable} → ok v ≡ ok w → v ≡ w
      ok_inj e = cc

  pub table_effect :
      (m'.line_mark_table ≡ m.line_mark_table)
      ⊎ ((o : ObjectReference) × (done o ≡ true)
          × Marked m.line_mark_table m'.line_mark_table ((o - space_start) / bytes_in_line))
  table_effect = elim (Move-table I alloc_map space_start space_end word before move) [
    | inl same ↦ inl same
    | inr (o, own, at, run) ↦ inr (o, knows v at, lines_marked o (knows v at) run)
  ]

  pub IsTable-next :
      IsTable m'.line_mark_table
      × (m'.line_mark_table.space_start ≡ space_start)
      × (space_end ≤ space_start + m'.line_mark_table.len * bytes_in_line)
  IsTable-next = elim table_effect [
    | inl same ↦
        subst
          (λ v.
            IsTable v
            × (v.space_start ≡ space_start)
            × (space_end ≤ space_start + v.len * bytes_in_line))
          (sym same) (t.table, t.table_start, t.table_end)
    | inr (o, d, marked) ↦ (
      Marked-IsTable marked t.table,
      marked.start ∙ t.table_start,
      omega (arith, marked.len, t.table_end),
    )
  ]

  pub Live-next : (o : ObjectReference) → Live m o → Live m' o
  Live-next o l = elim table_effect [
    | inl same ↦ subst (λ v. IsLiveAt v.cells ((o - space_start) / bytes_in_line)) (sym same) l
    | inr (n, d, marked) ↦
        let (lo, hi) = t.inside n d in
        Marked-IsLiveAt t.table (omega (arith, t.table_end)) marked
          ((o - space_start) / bytes_in_line) l
  ]
