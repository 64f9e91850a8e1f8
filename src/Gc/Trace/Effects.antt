-- ===== src/Gc/Trace/Effects.antt =====
-- src/heap/gc/multi_thread_trace.rs: what one access of a worker does to the trace map and to the line
-- marks, and what the worker knows afterwards.
use Prim.Native.Nat.{ℕ, ◌<◌}
use mathlib.Core.Path.{◌≡◌, refl, sym, ap, subst, ◌∙◌}
use mathlib.Core.Logic.{◌⊎◌, inl, inr}
use mathlib.Core.Bool.{Bool, true, false}
use mathlib.Core.List.{List, ◌∷◌}
use native.Mathlib.Omega.{arith}
use native.Mathlib.Decide.{dec_lt}
use immix_rust.Prelude.{ok, length}
use immix_rust.Prelude.Members.{Has}
use immix_rust.Common.Address.{Address, ObjectReference, plus}
use immix_rust.Common.TraceMap.{TraceMap, is_untraced_and_valid, mark_as_traced}
use immix_rust.Common.TraceMap.Marks.{MarkedWord, mark_as_traced-MarkedWord, cell}
use immix_rust.Crossbeam.Batch.{BatchInjector}
use immix_rust.Immix.LineMark.{mark_line_live}
use immix_rust.Gc.Trace.{
  Pc, marking, reading, scanning, pushing, Shared, Move, trace, mark, read, edge, edge_skipped,
  push,
}
use immix_rust.Gc.Trace.Reachable.{held, marked_at, Edge, IsFresh, Scanned, IsLive, PcOk}

mark_as_traced-beyond :
    (t u : TraceMap) (p : ℕ) → ¬ (cell t p < length t.map.addresses) → mark_as_traced t p ≡ ok u → ⊥
unfolding mark_as_traced
mark_as_traced-beyond t u p beyond run = ground arith

mark_as_traced-ok : (t u : TraceMap) (p : ℕ) → mark_as_traced t p ≡ ok u → MarkedWord t u p
mark_as_traced-ok t u p run = elim (dec_lt (cell t p) (length t.map.addresses)) [
  | yes below ↦
      let (u', run', marked) = mark_as_traced-MarkedWord t p below in
      subst (λ v. MarkedWord t v p) (ok_inj (sym run' ∙ run)) marked
  | no beyond ↦ absurd (mark_as_traced-beyond t u p beyond run)
]
  where
    ok_inj : {v w : TraceMap} → ok v ≡ ok w → v ≡ w
    ok_inj e = cc

module _ (I : BatchInjector ObjectReference) (alloc_map : List ℕ) (space_start space_end : Address)
    (word : Address → ℕ) (before : TraceMap) where
  abbrev Moves : Shared I → Pc → Shared I → Pc → Type 0
  Moves = Move I alloc_map space_start space_end word

  -- The trace map changes only where an object is marked.
  pub Move-map :
      {m m' : Shared I} {p p' : Pc}
      → Moves m p m' p'
      → ((m'.trace_map ≡ m.trace_map)
          × ((done : ObjectReference → Bool) (o : ObjectReference) → marked_at p' done o ≡ done o))
        ⊎ ((next : ObjectReference) × (own : List ObjectReference) × (p' ≡ marking next own)
            × MarkedWord m.trace_map m'.trace_map next)
  Move-map {m} (trace {o} {own} {t} inside run) =
      inr (o, own, refl, mark_as_traced-ok m.trace_map t o run)
  Move-map move = inl (refl, λ done o. refl)

  -- The line marks change only where the lines of a marked object are marked.
  pub Move-table :
      {m m' : Shared I} {p p' : Pc}
      → Moves m p m' p'
      → (m'.line_mark_table ≡ m.line_mark_table)
        ⊎ ((next : ObjectReference) × (own : List ObjectReference) × (p ≡ marking next own)
            × (mark_line_live m.line_mark_table next ≡ ok m'.line_mark_table))
  Move-table (mark {o} {own} run) = inr (o, own, refl, run)
  Move-table move = inl refl

  module _ (known known' : ObjectReference → Type 0)
      (mono : (c : ObjectReference) → known c → known' c) where
    Scanned-mono :
        {o : ObjectReference} {value : ℕ} {left : List ℕ}
        → Scanned alloc_map space_start word before known o value left
        → Scanned alloc_map space_start word before known' o value left
    Scanned-mono s = record {
      found = s.found;
      byte = s.byte;
      bits = s.bits;
      todo = s.todo;
      rest = λ offset has new. elim (s.rest offset has new) [
        | inl still ↦ inl still
        | inr k ↦ inr (mono _ k)
      ];
    }

    Scanned-Edge :
        {o : ObjectReference} {value offset : ℕ} {left : List ℕ}
        → Scanned alloc_map space_start word before known o value (offset ∷ left)
        → ((off : ℕ)
            → off ≡ offset
            → Edge alloc_map space_start word before o (word (plus o off))
            → IsFresh alloc_map space_start word before (word (plus o off))
            → known' (word (plus o off)))
        → Scanned alloc_map space_start word before known' o value left
    Scanned-Edge {o} {value} {offset} {left} s this = record {
      found = s.found;
      byte = s.byte;
      bits = s.bits;
      todo = λ off h. s.todo off (inr h);
      rest = λ off has new. elim (s.rest off has new) [
        | inl (inl same) ↦
            let e : Edge alloc_map space_start word before o (word (plus o off)) = record {
              value = value;
              found = s.found;
              offset = off;
              byte = s.byte;
              bits = s.bits;
              has = has;
              at = refl;
            } in
            inr (this off same e new)
        | inl (inr later) ↦ inl later
        | inr k ↦ inr (mono _ k)
      ];
    }

  -- What the moved worker knows, if what it holds is known and if a reference that it skips is.
  pub Move-PcOk :
      {m m' : Shared I} {p p' : Pc} (known known' : ObjectReference → Type 0)
      (done : ObjectReference → Bool)
      → ((c : ObjectReference) → known c → known' c)
      → Moves m p m' p'
      → ((o : ObjectReference)
          → IsLive alloc_map space_start word before I m o
          → IsLive alloc_map space_start word before I m' o)
      → ((o : ObjectReference)
          → done o ≡ true
          → mark_line_live m.line_mark_table o ≡ ok m'.line_mark_table
          → IsLive alloc_map space_start word before I m' o)
      → ((c : ObjectReference) → Has c (held p') → known' c)
      → ((o c : ObjectReference)
          → done o ≡ true
          → Edge alloc_map space_start word before o c
          → IsFresh alloc_map space_start word before c
          → is_untraced_and_valid m.trace_map c ≡ false
          → known' c)
      → PcOk alloc_map space_start word before I m known done p
      → PcOk alloc_map space_start word before I m' known' (marked_at p' done) p'
  Move-PcOk known known' done mono (trace inside run) keep line hold skip b = ground arith
  Move-PcOk known known' done mono (mark {o} run) keep line hold skip b = (b, line o b run)
  Move-PcOk known known' done mono (read {found} byte bits) keep line hold skip b = (
    b.0,
    keep _ b.1,
    record {
      found = found;
      byte = byte;
      bits = bits;
      todo = λ off h. h;
      rest = λ off has new. inl has;
    },
  )
  Move-PcOk known known' done mono (edge {o} u) keep line hold skip b = (
    b.0,
    keep _ b.1,
    Scanned-Edge known known' mono b.2
        (λ off same e new. hold _ (inl (ap (λ k. word (plus o k)) same))),
  )
  Move-PcOk known known' done mono (edge_skipped {o} u) keep line hold skip b = (
    b.0,
    keep _ b.1,
    Scanned-Edge known known' mono b.2 (λ off same e new. skip o _ b.0 e new (rw same u)),
  )
  Move-PcOk known known' done mono push keep line hold skip b =
      (b.0, keep _ b.1, Scanned-mono known known' mono b.2)
  Move-PcOk known known' done mono move keep line hold skip b = tt

  -- What another worker knows stays true.
  pub PcOk-mono :
      (m m' : Shared I) (known known' : ObjectReference → Type 0)
      (done done' : ObjectReference → Bool)
      → ((c : ObjectReference) → known c → known' c)
      → ((o : ObjectReference)
          → IsLive alloc_map space_start word before I m o
          → IsLive alloc_map space_start word before I m' o)
      → ((o : ObjectReference) → done o ≡ true → done' o ≡ true)
      → (p : Pc) → PcOk alloc_map space_start word before I m known done p
      → PcOk alloc_map space_start word before I m' known' done' p
  PcOk-mono m m' known known' done done' mono keep stays (marking next own) h = stays next h
  PcOk-mono m m' known known' done done' mono keep stays (reading next own) h =
      (stays next h.0, keep next h.1)
  PcOk-mono m m' known known' done done' mono keep stays (scanning next value left own) h =
      (stays next h.0, keep next h.1, Scanned-mono known known' mono h.2)
  PcOk-mono m m' known known' done done' mono keep stays (pushing c next value left own) h =
      (stays next h.0, keep next h.1, Scanned-mono known known' mono h.2)
  PcOk-mono m m' known known' done done' mono keep stays p h = tt
