-- ===== src/Gc/Trace/Progress/References.antt =====
-- src/heap/gc/multi_thread_trace.rs: one access of a worker loses no reference and invents none.
use Prim.Native.Nat.{ℕ, ◌<◌, ◌≤◌}
use mathlib.Core.Path.{◌≡◌, refl, sym, ap, subst, ◌∙◌}
use mathlib.Core.Logic.{◌⊎◌, inl, inr, ◌≢◌}
use mathlib.Core.Bool.{Bool, true, false}
use mathlib.Core.List.{List, ◌∷◌}
use native.Mathlib.Decide.{ℕ_discrete}
use immix_rust.Prelude.Members.{Has}
use immix_rust.Prelude.Families.{with_thread, with_thread_self, with_thread_other}
use immix_rust.Common.Address.{Address, ObjectReference, plus}
use immix_rust.Common.TraceMap.{TraceMap}
use immix_rust.Common.TraceMap.Marks.{cell}
use immix_rust.Crossbeam.Batch.{BatchInjector}
use immix_rust.Gc.Trace.{Pc, scanning, Shared, Move}
use immix_rust.Gc.Trace.Reachable.{
  held, works_on, is_failed, marked_at, Edge, IsFresh, Reachable, along, IsLive, Known, PcOk,
  Tracing,
}
use immix_rust.Gc.Trace.Flow.{Move-keeps, Move-sources, Move-marks, marked_at_mono}

module _ (alloc_map : List ℕ) (space_start : Address) (word : Address → ℕ) (before : TraceMap)
    (I : BatchInjector ObjectReference) (space_end : Address) (cpus : ℕ)
    (work_stack : List ObjectReference) where
  -- No two of the references that the trace can come to point into one word.
  abbrev pub Apart : Type 0
  Apart =
      (o p : ObjectReference)
      → Reachable alloc_map space_start word before work_stack o
      → Reachable alloc_map space_start word before work_stack p
      → cell before o ≡ cell before p
      → o ≡ p

  -- Worker `i` has made an access while the trace was as it should be, and did not fail.
  pub record Moved (m m' : Shared I) (pc : ℕ → Pc) (done : ObjectReference → Bool) (i : ℕ) (p' : Pc)
      : Type 0 where
    pub apart : Apart
    pub t : Tracing alloc_map space_start word before I space_end cpus work_stack m pc done
    pub below : i < cpus
    pub move : Move I alloc_map space_start space_end word m (pc i) m' p'
    pub alive : is_failed p' ≡ false

module _ {alloc_map : List ℕ} {space_start : Address} {word : Address → ℕ} {before : TraceMap}
    {I : BatchInjector ObjectReference} {space_end : Address} {cpus : ℕ}
    {work_stack : List ObjectReference} {m m' : Shared I} {pc : ℕ → Pc}
    {done : ObjectReference → Bool} {i : ℕ} {p' : Pc}
    (v : Moved alloc_map space_start word before I space_end cpus work_stack m m' pc done i
      p') where
  open v use {apart, t, below, move, alive}

  abbrev next : ℕ → Pc
  next = with_thread i p' pc

  abbrev done' : ObjectReference → Bool
  done' = marked_at p' done

  abbrev Live : Shared I → ObjectReference → Type 0
  Live = IsLive alloc_map space_start word before I

  abbrev Reached : ObjectReference → Type 0
  Reached = Reachable alloc_map space_start word before work_stack

  abbrev K : ObjectReference → Type 0
  K = Known alloc_map space_start word before I cpus m pc done

  abbrev K' : ObjectReference → Type 0
  K' = Known alloc_map space_start word before I cpus m' (with_thread i p' pc) (marked_at p' done)

  pub next_self : next i ≡ p'
  next_self = with_thread_self i p' pc

  pub next_other : (j : ℕ) → i ≢ j → next j ≡ pc j
  next_other j other = with_thread_other i p' pc j other

  pub held_next : (c : ObjectReference) → Has c (held p') → K' c
  held_next c h = inr (inl (i, below, subst (λ q. Has c (held q)) (sym next_self) h))

  pub known_moved : (c : ObjectReference) → Has c (I.items m.injector) ⊎ Has c (held (pc i)) → K' c
  known_moved c h = elim (Move-keeps I alloc_map space_start space_end word done move alive c h) [
    | inl waits ↦ inl waits
    | inr (inl here) ↦ held_next c here
    | inr (inr marked) ↦ inr (inr marked)
  ]

  pub known_next : (c : ObjectReference) → K c → K' c
  known_next c (inl waits) = known_moved c (inl waits)
  known_next c (inr (inr d)) =
      inr (inr (marked_at_mono I alloc_map space_start space_end word p' done c d))
  known_next c (inr (inl (j, jb, h))) = elim (ℕ_discrete i j) [
    | yes same ↦ known_moved c (inr (subst (λ k. Has c (held (pc k))) (sym same) h))
    | no other ↦ inr (inl (j, jb, subst (λ q. Has c (held q)) (sym (next_other j other)) h))
  ]

  -- What the moving worker knows.
  pub knows : {p : Pc} → pc i ≡ p → PcOk alloc_map space_start word before I m K done p
  knows at = subst (PcOk alloc_map space_start word before I m K done) at (t.pcs i below)

  pub Edge-of :
      {o : ObjectReference} {value offset : ℕ} {left : List ℕ} {own : List ObjectReference}
      → pc i ≡ scanning o value (offset ∷ left) own
      → Edge alloc_map space_start word before o (word (plus o offset))
  Edge-of {offset} at =
      let (d, l, s) = knows at in
      record {
        value = _;
        found = s.found;
        offset = offset;
        byte = s.byte;
        bits = s.bits;
        has = s.todo offset (inl refl);
        at = refl;
      }

  -- What is known can be reached.
  pub source_next :
      (c : ObjectReference) → Has c (I.items m'.injector) ⊎ Has c (held p') → Reached c
  source_next c h = elim (Move-sources I alloc_map space_start space_end word move c h) [
    | inl waits ↦ t.sound c (inl waits)
    | inr (inl here) ↦ t.sound c (inr (inl (i, below, here)))
    | inr (inr (o, value, offset, left, own, at, e, u)) ↦
        let d = (knows at).0 in
        subst Reached (sym e) (
          along (t.sound o (inr (inr d))) (Edge-of at)
            (subst (IsFresh alloc_map space_start word before) e (t.grew c u)))
  ]

  pub marks_next :
      (o : ObjectReference)
      → done' o ≡ true
      → (done o ≡ true)
        ⊎ (Has o (held (pc i)) × (works_on p' o ≡ true) × (space_start ≤ o) × (o < space_end))
  marks_next = Move-marks I alloc_map space_start space_end word done move

  pub sound_next : (c : ObjectReference) → K' c → Reached c
  sound_next c (inl waits) = source_next c (inl waits)
  sound_next c (inr (inr d)) = elim (marks_next c d) [
    | inl old ↦ t.sound c (inr (inr old))
    | inr new ↦ t.sound c (inr (inl (i, below, new.0)))
  ]
  sound_next c (inr (inl (j, jb, h))) = elim (ℕ_discrete i j) [
    | yes same ↦
        source_next c (inr (subst (λ q. Has c (held q)) (ap next (sym same) ∙ next_self) h))
    | no other ↦ t.sound c (inr (inl (j, jb, subst (λ q. Has c (held q)) (next_other j other) h)))
  ]

  pub inside_next : (o : ObjectReference) → done' o ≡ true → (space_start ≤ o) × (o < space_end)
  inside_next o d = elim (marks_next o d) [ inl old ↦ t.inside o old | inr new ↦ (new.2, new.3) ]
