-- ===== src/Gc/Trace/Progress/Maps.antt =====
-- src/heap/gc/multi_thread_trace.rs: one access of a worker and the trace map.
use Prim.Native.Nat.{ℕ}
use mathlib.Core.Path.{◌≡◌, sym, ap, subst, ◌∙◌}
use mathlib.Core.Logic.{◌⊎◌, inl, inr}
use mathlib.Core.Bool.{Bool, true, false}
use mathlib.Core.List.{List}
use native.Mathlib.Decide.{ℕ_discrete}
use immix_rust.Prelude.Families.{with_thread, with_thread_self, with_thread_other}
use immix_rust.Common.Address.{Address, ObjectReference}
use immix_rust.Common.TraceMap.{TraceMap, is_untraced_and_valid}
use immix_rust.Common.TraceMap.Marks.{MarkedWord, cell, IsTraced}
use immix_rust.Common.TraceMap.Later.{
  cell-offset, MarkedWord-untraced, MarkedWord-visited, MarkedWord-IsTraced,
}
use immix_rust.Crossbeam.Batch.{BatchInjector}
use immix_rust.Gc.Trace.{Pc, marking, Shared}
use immix_rust.Gc.Trace.Reachable.{marked_at, IsFresh, Reachable, IsLive}
use immix_rust.Gc.Trace.Flow.{marked_at_mono}
use immix_rust.Gc.Trace.Effects.{Move-map}
use immix_rust.Gc.Trace.Progress.References.{Moved}

module _ {alloc_map : List ℕ} {space_start : Address} {word : Address → ℕ} {before : TraceMap}
    {I : BatchInjector ObjectReference} {space_end : Address} {cpus : ℕ}
    {work_stack : List ObjectReference} {m m' : Shared I} {pc : ℕ → Pc}
    {done : ObjectReference → Bool} {i : ℕ} {p' : Pc}
    (v : Moved alloc_map space_start word before I space_end cpus work_stack m m' pc done i
      p') where
  open v use {apart, t, below, move, alive}

  abbrev next : ℕ → Pc
  next = with_thread i p' pc

  abbrev done' : ObjectReference → Bool
  done' = marked_at p' done

  abbrev Live : Shared I → ObjectReference → Type 0
  Live = IsLive alloc_map space_start word before I

  abbrev Reached : ObjectReference → Type 0
  Reached = Reachable alloc_map space_start word before work_stack

  pub map_effect :
      ((m'.trace_map ≡ m.trace_map)
        × ((done : ObjectReference → Bool) (o : ObjectReference) → marked_at p' done o ≡ done o))
      ⊎ ((o : ObjectReference) × (own : List ObjectReference) × (p' ≡ marking o own)
          × MarkedWord m.trace_map m'.trace_map o)
  map_effect = Move-map I alloc_map space_start space_end word before move

  pub offset_next : m'.trace_map.map.offset ≡ before.map.offset
  offset_next = elim map_effect [
    | inl same ↦ ap (λ (u : TraceMap). u.map.offset) same.0 ∙ t.offset
    | inr (o, own, at, w) ↦ w.offset ∙ t.offset
  ]

  pub grew_next :
      (p : ℕ)
      → is_untraced_and_valid m'.trace_map p ≡ true
      → IsFresh alloc_map space_start word before p
  grew_next p u = elim map_effect [
    | inl same ↦ t.grew p (ap (λ v. is_untraced_and_valid v p) (sym same.0) ∙ u)
    | inr (o, own, at, w) ↦ t.grew p (MarkedWord-untraced w p u)
  ]

  -- The object that is being marked is marked from now on.
  pub marks_itself :
      {o : ObjectReference} {own : List ObjectReference} → p' ≡ marking o own → done' o ≡ true
  marks_itself {o} {own} at = ap (λ q. marked_at q done o) at ∙ with_thread_self o true done

  pub IsTraced-next : (o : ObjectReference) → done' o ≡ true → IsTraced m'.trace_map o
  IsTraced-next o d = elim map_effect [
    | inl same ↦ subst (λ v. IsTraced v o) (sym same.0) (t.traced o (sym (same.1 done o) ∙ d))
    | inr (n, own, at, w) ↦ elim (ℕ_discrete n o) [
      | yes same ↦ w.here o (ap (cell m.trace_map) (sym same))
      | no other ↦ MarkedWord-IsTraced w o (
          t.traced o
            (sym (ap (λ q. marked_at q done o) at ∙ with_thread_other n true done o other) ∙ d))
    ]
  ]

  pub only_next :
      (p : ℕ)
      → IsFresh alloc_map space_start word before p
      → is_untraced_and_valid m'.trace_map p ≡ false
      → (o : ObjectReference) × (done' o ≡ true) × (cell before o ≡ cell before p)
  only_next p new u = elim map_effect [
    | inl same ↦
        let (o, d, e) = t.only p new (ap (λ v. is_untraced_and_valid v p) (sym same.0) ∙ u) in
        (o, same.1 done o ∙ d, e)
    | inr (n, own, at, w) ↦ elim (MarkedWord-visited w p u) [
      | inl e ↦ (
        n,
        marks_itself at,
        sym (cell-offset before m.trace_map n t.offset)
            ∙ sym e
            ∙ cell-offset before m.trace_map p t.offset,
      )
      | inr old ↦
          let (o, d, e) = t.only p new old in
          (o, marked_at_mono I alloc_map space_start space_end word p' done o d, e)
    ]
  ]
