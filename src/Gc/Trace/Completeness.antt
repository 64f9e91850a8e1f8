-- ===== src/Gc/Trace/Completeness.antt =====
-- src/heap/gc/multi_thread_trace.rs: a finished trace has visited what it was to visit.
use Prim.Native.Nat.{ℕ, ◌+◌, ◌*◌, ◌<◌, ◌≤◌}
use mathlib.Core.Path.{◌≡◌, refl, sym, ap, subst, ◌∙◌}
use mathlib.Core.Logic.{◌⊎◌, inl, inr}
use mathlib.Core.Bool.{Bool, true, false}
use mathlib.Core.List.{List, [], ◌∷◌, ◌++◌, foldl, append_assoc, append-nil}
use native.Mathlib.Omega.{arith}
use native.Mathlib.Decide.{ℕ_discrete}
use immix_rust.Prelude.{Bool-cases}
use immix_rust.Prelude.Families.{with_thread_self, with_thread_other}
use immix_rust.Prelude.Members.{Has, Has-cast}
use immix_rust.Common.Address.{Address, ObjectReference, usize_mod}
use immix_rust.Common.TraceMap.{TraceMap, is_untraced_and_valid}
use immix_rust.Common.TraceMap.Marks.{IsTraced, cell}
use immix_rust.Crossbeam.Batch.{BatchInjector}
use immix_rust.Immix.Sizes.{bytes_in_line}
use immix_rust.Immix.LineMark.{LineMarkTable}
use immix_rust.Immix.LineMark.Marking.{IsTable}
use immix_rust.Gc.Trace.{Pc, returned, Shared, Workers, launched, Step, by, Reach, start, later}
use immix_rust.Gc.Trace.Counting.{is_idle, Quiet, returned-Quiet}
use immix_rust.Gc.Trace.Reachable.{
  held, works_on, is_failed, Reachable, root, along, IsLive, Known, Tracing,
}
use immix_rust.Gc.Trace.Flow.{Move-not_failed}
use immix_rust.Gc.Trace.Progress.{Tracing-next}
use immix_rust.Gc.Trace.Progress.References.{Apart}

held_idle : (p : Pc) → is_idle p ≡ true → held p ≡ []
held_idle p idle = ground arith

idle_holds : (p : Pc) → is_idle p ≡ true → (c : ObjectReference) → Has c (held p) → ⊥
idle_holds p idle c h = elim (Has-cast c (held_idle p idle) h) [ ]

idle_works : (p : Pc) → is_idle p ≡ true → (o : ObjectReference) → works_on p o ≡ true → ⊥
idle_works p idle o h = ground arith

idle_failed : (p : Pc) → is_idle p ≡ true → is_failed p ≡ true → ⊥
idle_failed p idle h = ground arith

clash : {b : Bool} → b ≡ false → b ≡ true → ⊥
clash f t = cc

module _ (I : BatchInjector ObjectReference) where
  items-foldl-push :
      (xs : List ObjectReference) (q : I.Queue) → I.items (foldl I.push q xs) ≡ I.items q ++ xs
  items-foldl-push [] q = sym (append-nil (I.items q))
  items-foldl-push (x ∷ xs) q =
      items-foldl-push xs (I.push q x)
      ∙ ap (λ ys. ys ++ xs) (I.items-push q x)
      ∙ append_assoc (I.items q) (x ∷ []) xs

  pushed_all : (xs : List ObjectReference) → I.items (foldl I.push I.new xs) ≡ xs
  pushed_all xs = items-foldl-push xs I.new ∙ ap (λ ys. ys ++ xs) I.items-new

module _ (alloc_map : List ℕ) (space_start : Address) (word : Address → ℕ) (before : TraceMap)
    (I : BatchInjector ObjectReference) (space_end : Address) (cpus : ℕ)
    (work_stack : List ObjectReference) where
  abbrev pub Good : Shared I → (ℕ → Pc) → Type 0
  Good m pc =
      (done : ObjectReference → Bool) × Tracing alloc_map space_start word before I space_end cpus
        work_stack m pc done

  -- A worker has failed, or all is as it should be.
  abbrev pub Holds : Workers I → Type 0
  Holds w = ((i : ℕ) × (i < cpus) × (is_failed (w.pc i) ≡ true)) ⊎ Good w.shared w.pc

  abbrev Steps : Workers I → Workers I → Type 0
  Steps = Step I alloc_map space_start space_end word cpus

  Holds-Step :
      Apart alloc_map space_start word before I space_end cpus work_stack
      → {v w : Workers I} → Steps v w
      → Holds v
      → Holds w
  Holds-Step apart {v} (by i {m} {p} below move) (inl (j, jb, f)) = elim (ℕ_discrete i j) [
    | yes same ↦ absurd (
        clash (Move-not_failed I alloc_map space_start space_end word move)
          (subst (λ k. is_failed (v.pc k) ≡ true) (sym same) f))
    | no other ↦ inl (j, jb, ap is_failed (with_thread_other i p v.pc j other) ∙ f)
  ]
  Holds-Step apart {v} (by i {m} {p} below move) (inr (done, t)) = elim (Bool-cases (is_failed p)) [
    | inl f ↦ inl (i, below, ap is_failed (with_thread_self i p v.pc) ∙ f)
    | inr alive ↦ inr (
      _,
      Tracing-next (record { apart = apart; t = t; below = below; move = move; alive = alive }),
    )
  ]

  module _ (apart : Apart alloc_map space_start word before I space_end cpus work_stack)
      (some_cpu : 0 < cpus) (few : cpus + 1 < usize_mod) (table : LineMarkTable)
      (valid : IsTable table) (begins : table.space_start ≡ space_start)
      (ends : space_end ≤ space_start + table.len * bytes_in_line) where
    abbrev pub begin : Workers I
    begin = launched I cpus work_stack before table

    Holds-start : Holds begin
    Holds-start = inr (
      λ _. false,
      record {
        roots = λ c h. inl (Has-cast c (sym (pushed_all I work_stack)) h);
        sound = begin_sound;
        inside = λ o d. absurd (clash refl d);
        offset = refl;
        grew = λ p u. u;
        traced = λ o d. absurd (clash refl d);
        only = λ p new u. absurd (clash u new);
        table = valid;
        table_start = begins;
        table_end = ends;
        status = λ o d. absurd (clash refl d);
        pcs = λ i below. tt;
      },
    )
      where
        begin_sound :
            (c : ObjectReference)
            → Known alloc_map space_start word before I cpus begin.shared begin.pc (λ _. false) c
            → Reachable alloc_map space_start word before work_stack c
        begin_sound c (inl h) = root (Has-cast c (pushed_all I work_stack) h)
        begin_sound c (inr (inl (i, below, h))) = elim h [ ]
        begin_sound c (inr (inr d)) = absurd (clash refl d)

    pub Holds-Reach :
        {w : Workers I} → Reach I alloc_map space_start space_end word cpus begin w → Holds w
    Holds-Reach start = Holds-start
    Holds-Reach (later r step) = Holds-Step apart step (Holds-Reach r)

    module _ {w : Workers I} (run : Reach I alloc_map space_start space_end word cpus begin w)
        (i : ℕ) (below : i < cpus) (at : w.pc i ≡ returned) where
      quiet : Quiet I alloc_map space_start space_end word cpus w.shared w.pc
      quiet =
          returned-Quiet I alloc_map space_start space_end word cpus some_cpu few work_stack before
            table run i below at

      Good-end : Good w.shared w.pc
      Good-end = elim (Holds-Reach run) [
        | inl (j, jb, f) ↦ absurd (idle_failed (w.pc j) (quiet.idle j jb) f)
        | inr good ↦ good
      ]

      module _ (done : ObjectReference → Bool)
          (t : Tracing alloc_map space_start word before I space_end cpus work_stack w.shared w.pc
            done) where
        Known-done :
            (c : ObjectReference)
            → Known alloc_map space_start word before I cpus w.shared w.pc done c
            → done c ≡ true
        Known-done c (inl h) = elim (Has-cast c quiet.none h) [ ]
        Known-done c (inr (inl (j, jb, h))) = absurd (idle_holds (w.pc j) (quiet.idle j jb) c h)
        Known-done c (inr (inr d)) = d

        reached_done :
            {o : ObjectReference}
            → Reachable alloc_map space_start word before work_stack o
            → done o ≡ true
        reached_done (root h) = Known-done _ (t.roots _ h)
        reached_done (along {o} {c} r e new) = elim (t.status o (reached_done r)) [
          | inl whole ↦ Known-done c (whole.1 c e new)
          | inr (j, jb, h) ↦ absurd (idle_works (w.pc j) (quiet.idle j jb) o h)
        ]

        done-IsLive :
            (o : ObjectReference)
            → done o ≡ true
            → IsLive alloc_map space_start word before I w.shared o
        done-IsLive o d = elim (t.status o d) [
          | inl whole ↦ whole.0
          | inr (j, jb, h) ↦ absurd (idle_works (w.pc j) (quiet.idle j jb) o h)
        ]

      -- When a worker of the trace has returned, every object that the work stack leads to, through
      -- words that were not traced when the trace began, is traced, and its line is live, however
      -- the workers were interleaved. The conditions: no two of these references point into one
      -- word, the table has a cell for every line of the space, and there is at least one worker
      -- and fewer than the counter can hold.
      pub Reachable-IsTraced :
          (o : ObjectReference)
          → Reachable alloc_map space_start word before work_stack o
          → IsTraced w.shared.trace_map o × IsLive alloc_map space_start word before I w.shared o
      Reachable-IsTraced o r =
          let (done, t) = Good-end in
          let d = reached_done done t r in (t.traced o d, done-IsLive done t o d)

      -- Under the same conditions nothing else is visited: a word that was not traced when the
      -- trace began, and is when a worker has returned, holds an object that the work stack leads
      -- to.
      pub traced-Reachable :
          (p : ℕ)
          → is_untraced_and_valid before p ≡ true
          → is_untraced_and_valid w.shared.trace_map p ≡ false
          → (o : ObjectReference) × Reachable alloc_map space_start word before work_stack o
            × (cell before o ≡ cell before p)
      traced-Reachable p new u =
          let (done, t) = Good-end in
          let (o, d, same) = t.only p new u in (o, t.sound o (inr (inr d)), same)
