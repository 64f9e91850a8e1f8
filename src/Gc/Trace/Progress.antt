-- ===== src/Gc/Trace/Progress.antt =====
-- src/heap/gc/multi_thread_trace.rs: every access of a worker keeps what holds while a trace runs.
pub mod References
pub mod Maps
pub mod Lines
use Prim.Native.Nat.{ℕ, ◌+◌, ◌-◌, ◌*◌, ◌/◌, ◌<◌, ◌≤◌}
use mathlib.Core.Path.{◌≡◌, refl, sym, ap, subst, ◌∙◌}
use mathlib.Core.Logic.{◌⊎◌, inl, inr, ◌≢◌}
use mathlib.Core.Bool.{Bool, true, false}
use mathlib.Core.List.{List, [], ◌∷◌}
use mathlib.Core.Option.{some}
use native.Mathlib.Omega.{arith}
use native.Mathlib.Decide.{ℕ_discrete}
use immix_rust.Prelude.{ok}
use immix_rust.Prelude.Members.{Has, Has-cast}
use immix_rust.Prelude.Families.{with_thread, with_thread_self, with_thread_other}
use immix_rust.Common.Address.{Address, ObjectReference, plus}
use immix_rust.Common.TraceMap.{TraceMap, is_untraced_and_valid}
use immix_rust.Common.TraceMap.Marks.{MarkedWord, cell, IsTraced}
use immix_rust.Common.TraceMap.Later.{
  cell-offset, MarkedWord-untraced, MarkedWord-visited, MarkedWord-IsTraced,
}
use immix_rust.Crossbeam.Batch.{BatchInjector}
use immix_rust.Immix.Sizes.{bytes_in_line}
use immix_rust.Immix.LineMark.{LineMarkTable, live, mark_line_live}
use immix_rust.Immix.LineMark.Marking.{
  IsTable, IsLiveAt, Marked, Marked-IsTable, Marked-IsLiveAt, mark_line_live-Marked,
}
use immix_rust.Gc.Trace.{Pc, marking, scanning, offsets, ref_bits, Shared, Move}
use immix_rust.Gc.Trace.Reachable.{
  held, works_on, is_failed, marked_at, Edge, IsFresh, Reachable, along, Scanned, IsLive, Known,
  Complete, PcOk, Tracing,
}
use immix_rust.Gc.Trace.Flow.{Move-keeps, Move-sources, Move-marks, marked_at_mono, Move-works_on}
use immix_rust.Gc.Trace.Effects.{Move-map, Move-table, Move-PcOk, PcOk-mono}
use immix_rust.Gc.Trace.Progress.References.{
  Moved, next_self, next_other, held_next, known_moved, known_next, knows, Edge-of, source_next,
  marks_next, sound_next, inside_next,
}
use immix_rust.Gc.Trace.Progress.Maps.{
  map_effect, offset_next, grew_next, marks_itself, IsTraced-next, only_next,
}
use immix_rust.Gc.Trace.Progress.Lines.{lines_marked, table_effect, IsTable-next, Live-next}

module _ {alloc_map : List ℕ} {space_start : Address} {word : Address → ℕ} {before : TraceMap}
    {I : BatchInjector ObjectReference} {space_end : Address} {cpus : ℕ}
    {work_stack : List ObjectReference} {m m' : Shared I} {pc : ℕ → Pc}
    {done : ObjectReference → Bool} {i : ℕ} {p' : Pc}
    (v : Moved alloc_map space_start word before I space_end cpus work_stack m m' pc done i
      p') where
  open v use {apart, t, below, move, alive}

  abbrev next : ℕ → Pc
  next = with_thread i p' pc

  abbrev done' : ObjectReference → Bool
  done' = marked_at p' done

  abbrev Live : Shared I → ObjectReference → Type 0
  Live = IsLive alloc_map space_start word before I

  abbrev Reached : ObjectReference → Type 0
  Reached = Reachable alloc_map space_start word before work_stack

  abbrev K : ObjectReference → Type 0
  K = Known alloc_map space_start word before I cpus m pc done

  abbrev K' : ObjectReference → Type 0
  K' = Known alloc_map space_start word before I cpus m' (with_thread i p' pc) (marked_at p' done)

  Complete-next :
      (o : ObjectReference)
      → Complete alloc_map space_start word before I K o
      → Complete alloc_map space_start word before I K' o
  Complete-next o all = λ c e new. known_next v c (all c e new)

  found_same :
      {o c : ObjectReference} {value : ℕ} {left : List ℕ}
      (e : Edge alloc_map space_start word before o c)
      (s : Scanned alloc_map space_start word before K o value left)
      → e.found ≡ s.found
  found_same {value = value} e s =
      some_inj (sym e.bits ∙ ap (λ v. offsets (ref_bits v)) value_same ∙ s.bits)
    where
      ok_inj : {v w : ℕ} → ok v ≡ ok w → v ≡ w
      ok_inj h = cc

      some_inj : {v w : List ℕ} → some v ≡ some w → v ≡ w
      some_inj h = cc

      value_same : e.value ≡ value
      value_same = ok_inj (sym e.byte ∙ s.byte)

  -- The object that a worker leaves is complete: no reference of it is left.
  left-Complete :
      (o : ObjectReference) (value : ℕ) (own : List ObjectReference)
      → pc i ≡ scanning o value [] own
      → Live m o × Complete alloc_map space_start word before I K o
  left-Complete o value own at =
      let (d, l, s) = knows v at in
      (
        l,
        λ c e new.
            elim (s.rest e.offset (Has-cast e.offset (found_same e s) e.has)
              (subst (IsFresh alloc_map space_start word before) e.at new)) [
                | inl none ↦ elim none [ ]
                | inr k ↦ subst K (sym e.at) k
              ],
      )

  works_next :
      (j : ℕ) (o : ObjectReference) → i ≢ j → works_on (pc j) o ≡ true → works_on (next j) o ≡ true
  works_next j o other h = subst (λ q. works_on q o ≡ true) (sym (next_other v j other)) h

  abbrev StatusNext : ObjectReference → Type 0
  StatusNext o =
      (Live m' o × Complete alloc_map space_start word before I K' o)
      ⊎ ((j : ℕ) × (j < cpus) × (works_on (next j) o ≡ true))

  finished :
      (o : ObjectReference)
      → Live m o × Complete alloc_map space_start word before I K o
      → StatusNext o
  finished o (l, all) = inl (Live-next v o l, Complete-next o all)

  busy : (o : ObjectReference) → works_on p' o ≡ true → StatusNext o
  busy o h = inr (i, below, subst (λ q. works_on q o ≡ true) (sym (next_self v)) h)

  status_old : (o : ObjectReference) → done o ≡ true → StatusNext o
  status_old o d = elim (t.status o d) [
    | inl whole ↦ finished o whole
    | inr (j, jb, h) ↦ elim (ℕ_discrete i j) [
      | no other ↦ inr (j, jb, works_next j o other h)
      | yes same ↦
          elim (Move-works_on I alloc_map space_start space_end word move alive o
            (subst (λ k. works_on (pc k) o ≡ true) (sym same) h)) [
              | inl still ↦ busy o still
              | inr (value, own, at) ↦ finished o (left-Complete o value own at)
            ]
    ]
  ]

  status_next : (o : ObjectReference) → done' o ≡ true → StatusNext o
  status_next o d = elim (marks_next v o d) [ inl old ↦ status_old o old | inr new ↦ busy o new.1 ]

  -- A reference that a worker skips is that of an object that was marked.
  skipped_known :
      (o c : ObjectReference)
      → done o ≡ true
      → Edge alloc_map space_start word before o c
      → IsFresh alloc_map space_start word before c
      → is_untraced_and_valid m.trace_map c ≡ false
      → K' c
  skipped_known o c d e new u =
      let (p, dp, same) = t.only c new u in
      let reached = along (t.sound o (inr (inr d))) e new in
      let it = apart p c (t.sound p (inr (inr dp))) reached same in
      known_next v c (inr (inr (subst (λ k. done k ≡ true) it dp)))

  lines_marked-IsLive :
      (o : ObjectReference)
      → done o ≡ true
      → mark_line_live m.line_mark_table o ≡ ok m'.line_mark_table
      → Live m' o
  lines_marked-IsLive o d run = (live, (lines_marked v o d run).line, refl)

  pc_moved : PcOk alloc_map space_start word before I m' K' done' p'
  pc_moved =
      Move-PcOk I alloc_map space_start space_end word before K K' done (known_next v) move
        (Live-next v) lines_marked-IsLive (held_next v) skipped_known (t.pcs i below)

  pc_kept :
      (p : Pc)
      → PcOk alloc_map space_start word before I m K done p
      → PcOk alloc_map space_start word before I m' K' done' p
  pc_kept p h =
      PcOk-mono I alloc_map space_start space_end word before m m' K K' done done' (known_next v)
        (Live-next v) (marked_at_mono I alloc_map space_start space_end word p' done) p h

  pcs_next : (j : ℕ) → j < cpus → PcOk alloc_map space_start word before I m' K' done' (next j)
  pcs_next j jb = elim (ℕ_discrete i j) [
    | yes same ↦
        subst (PcOk alloc_map space_start word before I m' K' done')
          (sym (ap next (sym same) ∙ next_self v)) pc_moved
    | no other ↦
        subst (PcOk alloc_map space_start word before I m' K' done') (sym (next_other v j other))
          (pc_kept (pc j) (t.pcs j jb))
  ]

  pub Tracing-next :
      Tracing alloc_map space_start word before I space_end cpus work_stack m' next done'
  Tracing-next = record {
    roots = λ c h. known_next v c (t.roots c h);
    sound = sound_next v;
    inside = inside_next v;
    offset = offset_next v;
    grew = grew_next v;
    traced = IsTraced-next v;
    only = only_next v;
    table = (IsTable-next v).0;
    table_start = (IsTable-next v).1;
    table_end = (IsTable-next v).2;
    status = status_next;
    pcs = pcs_next;
  }
