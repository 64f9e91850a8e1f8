-- ===== src/Gc/Trace/Unfailing.antt =====
-- src/heap/gc/multi_thread_trace.rs: where the objects are well formed no worker fails.
use Prim.Native.Nat.{ℕ, ◌+◌, ◌*◌, ◌<◌, ◌≤◌}
use mathlib.Core.Path.{◌≡◌, refl, sym, ap, subst, ◌∙◌}
use mathlib.Core.Logic.{inl, inr}
use mathlib.Core.Bool.{Bool, true, false, ◌&&◌}
use mathlib.Core.List.{List}
use mathlib.Core.Option.{Option, none, some}
use native.Mathlib.Omega.{arith}
use native.Mathlib.Decide.{ℕ_discrete}
use immix_rust.Prelude.{length, ok, leb, ltb, le→leb, lt→ltb}
use immix_rust.Prelude.Families.{with_thread, with_thread_self, with_thread_other}
use immix_rust.Prelude.Members.{Has}
use immix_rust.Common.Address.{Address, ObjectReference, usize_mod}
use immix_rust.Common.TraceMap.{TraceMap, mark_as_traced}
use immix_rust.Common.TraceMap.Marks.{cell, mark_as_traced-MarkedWord}
use immix_rust.Common.TraceMap.Later.{cell-offset}
use immix_rust.ObjectModel.{get_ref_byte}
use immix_rust.Crossbeam.Batch.{BatchInjector}
use immix_rust.Immix.Sizes.{bytes_in_line}
use immix_rust.Immix.LineMark.{LineMarkTable, mark_line_live}
use immix_rust.Immix.LineMark.Marking.{IsTable, mark_line_live-Marked}
use immix_rust.Gc.Trace.{
  Pc, tracing, marking, reading, scanning, Shared, Move, Workers, launched, by, Reach, start, later,
  offsets, ref_bits, short_encode, trace_outside, trace_fails, mark_fails, read_fails,
  read_unexpected, long_encode, pop,
}
use immix_rust.Gc.Trace.Reachable.{held, is_failed, Reachable, Known, PcOk, Tracing}
use immix_rust.Gc.Trace.Kept.{Reach-map_length}
use immix_rust.Gc.Trace.Completeness.{Holds-Reach}
use immix_rust.Gc.Trace.Progress.References.{Apart}

clash : {b : Bool} → b ≡ false → b ≡ true → ⊥
clash f t = cc

ok_inj : {v w : ℕ} → ok v ≡ ok w → v ≡ w
ok_inj e = cc

no_match :
    (f : ℕ → Option (List ℕ)) {v w : ℕ} {found : List ℕ} → v ≡ w → f v ≡ none → f w ≡ some found → ⊥
no_match f e a b = cc

module _ (alloc_map : List ℕ) (space_start : Address) (word : Address → ℕ) (before : TraceMap)
    (I : BatchInjector ObjectReference) (space_end : Address) where
  -- The reference points into the space, and the byte that describes it is one of those that the trace
  -- can read.
  pub record IsObject (o : ObjectReference) : Type 0 where
    pub low : space_start ≤ o
    pub high : o < space_end
    pub mapped : cell before o < length before.map.addresses
    pub value : ℕ
    pub found : List ℕ
    pub byte : get_ref_byte alloc_map space_start o ≡ ok value
    pub bits : offsets (ref_bits value) ≡ some found
    pub short : short_encode value ≡ true

  -- The next access of a worker does not fail.
  abbrev Sane : Shared I → Pc → Type 0
  Sane m (tracing o own) =
      (leb space_start o && ltb o space_end ≡ true)
      × (t : TraceMap) × (mark_as_traced m.trace_map o ≡ ok t)
  Sane m (marking o own) = (t : LineMarkTable) × (mark_line_live m.line_mark_table o ≡ ok t)
  Sane m (reading o own) =
      (value : ℕ) × (found : List ℕ) × (get_ref_byte alloc_map space_start o ≡ ok value)
      × (offsets (ref_bits value) ≡ some found)
  Sane m (scanning o value left own) = short_encode value ≡ true
  Sane m _ = Unit

  Move-alive :
      {m m' : Shared I} {p p' : Pc}
      → Move I alloc_map space_start space_end word m p m' p'
      → Sane m p
      → is_failed p' ≡ false
  Move-alive pop s = refl
  Move-alive (trace_outside out) s = absurd (clash out s.0)
  Move-alive (trace_fails inside run) (in_space, t, marked) = cc
  Move-alive (mark_fails run) (t, marked) = cc
  Move-alive (read_unexpected byte bits) (value, found, byte', bits') =
      absurd (no_match (λ v. offsets (ref_bits v)) (ok_inj (sym byte ∙ byte')) bits bits')
  Move-alive (read_fails byte) (value, found, byte', bits') = cc
  Move-alive (long_encode long) s = absurd (clash long s)
  Move-alive move s = refl

  module _ (cpus : ℕ) (work_stack : List ObjectReference)
      (objects : (o : ObjectReference)
        → Reachable alloc_map space_start word before work_stack o
        → IsObject o) where
    inside_bounds :
        (o : ObjectReference)
        → space_start ≤ o
        → o < space_end
        → leb space_start o && ltb o space_end ≡ true
    inside_bounds o low high = rw (le→leb _ _ low, lt→ltb _ _ high) refl

    module _ {m : Shared I} {pc : ℕ → Pc} (done : ObjectReference → Bool)
        (t : Tracing alloc_map space_start word before I space_end cpus work_stack m pc done)
        (size : length m.trace_map.map.addresses ≡ length before.map.addresses) where
      done-IsObject : (o : ObjectReference) → done o ≡ true → IsObject o
      done-IsObject o d = objects o (t.sound o (inr (inr d)))

      marks :
          (o : ObjectReference)
          → IsObject o
          → (u : TraceMap) × (mark_as_traced m.trace_map o ≡ ok u)
      marks o v =
          let same = cell-offset before m.trace_map o t.offset in
          let (u, run, marked) =
            mark_as_traced-MarkedWord m.trace_map o (omega (arith, v.mapped, same, size)) in
          (u, run)

      lines :
          (o : ObjectReference)
          → IsObject o
          → (u : LineMarkTable) × (mark_line_live m.line_mark_table o ≡ ok u)
      lines o v =
          let (u, run, marked) = mark_line_live-Marked m.line_mark_table o t.table (
            omega (arith, t.table_start, v.low),
            omega (arith, t.table_start, t.table_end, v.high),
          ) in
          (u, run)

      knows :
          {i : ℕ} {p : Pc}
          → pc i ≡ p
          → PcOk alloc_map space_start word before I m
              (Known alloc_map space_start word before I cpus m pc done)
              done
              (pc i)
          → PcOk alloc_map space_start word before I m
              (Known alloc_map space_start word before I cpus m pc done)
              done
              p
      knows e k =
          subst
            (PcOk alloc_map space_start word before I m
              (Known alloc_map space_start word before I cpus m pc done) done)
            e k

      Tracing-Sane : (i : ℕ) → i < cpus → (p : Pc) → pc i ≡ p → Sane m p
      Tracing-Sane i ib (tracing o own) e =
          let v =
            objects o
              (t.sound o (inr (inl (i, ib, subst (λ p. Has o (held p)) (sym e) (inl refl))))) in
          let (u, run) = marks o v in (inside_bounds o v.low v.high, u, run)
      Tracing-Sane i ib (marking o own) e = lines o (done-IsObject o (knows e (t.pcs i ib)))
      Tracing-Sane i ib (reading o own) e =
          let v = done-IsObject o (knows e (t.pcs i ib)).0 in (v.value, v.found, v.byte, v.bits)
      Tracing-Sane i ib (scanning o value left own) e =
          let (d, alive, s) = knows e (t.pcs i ib) in
          let v = done-IsObject o d in
          subst (λ k. short_encode k ≡ true) (ok_inj (sym v.byte ∙ s.byte)) v.short
      Tracing-Sane i ib p e = tt

    module _ (apart : Apart alloc_map space_start word before I space_end cpus work_stack)
        (few : cpus + 1 < usize_mod) (table : LineMarkTable) (valid : IsTable table)
        (begins : table.space_start ≡ space_start)
        (ends : space_end ≤ space_start + table.len * bytes_in_line) where
      -- If everything that the work stack leads to is an object of the space whose byte the trace can
      -- read, then no worker fails, at any moment and however they are interleaved. No two of these
      -- references point into one word, the table has a cell for every line of the space, and there
      -- are fewer workers than the counter can hold.
      pub trace-unfailing :
          {w : Workers I}
          → Reach I alloc_map space_start space_end word cpus
              (launched I cpus work_stack before table)
              w
          → (i : ℕ) → i < cpus
          → is_failed (w.pc i) ≡ false
      trace-unfailing start i ib = refl
      trace-unfailing (later {v} r (by j {m} {p} jb move)) i ib = elim (ℕ_discrete j i) [
        | no other ↦ ap is_failed (with_thread_other j p v.pc i other) ∙ trace-unfailing r i ib
        | yes same ↦
            ap is_failed (ap (with_thread j p v.pc) (sym same) ∙ with_thread_self j p v.pc)
            ∙ elim (Holds-Reach alloc_map space_start word before I space_end cpus work_stack apart
                (omega arith) few table valid begins ends r) [
                  | inl (k, kb, f) ↦ absurd (clash (trace-unfailing r k kb) f)
                  | inr (done, t) ↦ Move-alive move (
                      Tracing-Sane done t
                        (Reach-map_length I alloc_map space_start space_end word cpus r) j jb
                        (v.pc j) refl)
                ]
      ]
