-- ===== src/Gc/Collection/Runs.antt =====
-- src/heap/gc/mod.rs: what a run of `gc` keeps, and why one panics.
use Prim.Native.Nat.{ℕ, ◌+◌, ◌-◌, ◌*◌, ◌/◌, ◌<◌, ◌≤◌}
use mathlib.Core.Path.{◌≡◌, sym, subst}
use mathlib.Core.Bool.{true}
use mathlib.Core.Logic.{◌⊎◌, inl, inr}
use mathlib.Core.List.{List}
use immix_rust.Prelude.{Outcome, ok, err, panicked, length, ◌>>=◌, >>=-eq-ok}
use immix_rust.Prelude.Members.{Has}
use immix_rust.Common.Address.{Address, ObjectReference, usize_mod}
use immix_rust.Common.TraceMap.{TraceMap, flip_mark_state, is_untraced_and_valid}
use immix_rust.Common.TraceMap.Marks.{IsBinary, flip-swaps}
use immix_rust.Crossbeam.{Injector}
use immix_rust.Crossbeam.Batch.{BatchInjector}
use immix_rust.Immix.Sizes.{bytes_in_line}
use immix_rust.Immix.Block.{ImmixBlock}
use immix_rust.Immix.LineMark.Marking.{IsTable, IsLiveAt}
use immix_rust.Immix.Space.{ImmixSpace}
use immix_rust.Immix.Space.Sweep.{sweep}
use immix_rust.Gc.Trace.{returned, Workers, launched, Reach}
use immix_rust.Immix.Space.Sweep.Blocks.{filled, AllFit, AllFit-length}
use immix_rust.Immix.Space.Sweep.Unique.{sweep-full_of_panicked, sweep-ok_SweptSpace}
use immix_rust.Gc.Trace.Kept.{Reach-IsBinary, Reach-length}
use immix_rust.Gc.Trace.Reachable.{is_failed, Reachable, root, along}
use immix_rust.Gc.Trace.Progress.References.{Apart}
use immix_rust.Gc.Trace.Completeness.{Reachable-IsTraced}
use immix_rust.Gc.Collection.{
  Panics, in_worker, in_sweep, traced_space, sweep_and_flip, Collects, Swept-IsLiveAt,
}

-- More roots lead to more objects.
pub Reachable-mono :
    {alloc_map : List ℕ} {space_start : Address} {word : Address → ℕ} {before : TraceMap}
    {roots roots' : List ObjectReference}
    → ((o : ObjectReference) → Has o roots → Has o roots')
    → {o : ObjectReference} → Reachable alloc_map space_start word before roots o
    → Reachable alloc_map space_start word before roots' o
Reachable-mono more (root h) = root (more _ h)
Reachable-mono more (along r e new) = along (Reachable-mono more r) e new

module _ (I : Injector ImmixBlock) (J : BatchInjector ObjectReference) where
  sweep_and_flip-ran :
      (fuel : ℕ) (s : ImmixSpace I) {s' : ImmixSpace I}
      → sweep_and_flip I J fuel s ≡ ok s'
      → (w : ImmixSpace I) × (sweep I fuel s ≡ ok w)
        × (record w { trace_map = flip_mark_state w.trace_map } ≡ s')
  unfolding sweep_and_flip
  sweep_and_flip-ran fuel s e = let (w, run, rest) = >>=-eq-ok (sweep I fuel s) _ e in (w, run, cc)

  -- What a collection of the space `s` with these roots can rely on.
  pub record Collectable (word : Address → ℕ) (cpus : ℕ) (roots : List ObjectReference)
      (s : ImmixSpace I) : Type 0 where
    pub apart : Apart s.alloc_map.ptr s.start word s.trace_map J s.end cpus roots
    pub some_cpu : 0 < cpus
    pub few : cpus + 1 < usize_mod
    pub valid : IsTable s.line_mark_table
    pub begins : s.line_mark_table.space_start ≡ s.start
    pub ends : s.end ≤ s.start + s.line_mark_table.len * bytes_in_line
    pub binary : IsBinary s.trace_map
    pub fit : AllFit s.line_mark_table.cells (I.items s.used_blocks)

  -- However the workers were interleaved, a collection that returns keeps the line of every object
  -- live that the roots lead to, and its word counts as not traced in the next collection, if no
  -- two of these references point into one word, the table has a cell for every line of the space,
  -- the trace map holds only the values 0 and 1, and the slices of the used blocks lie inside the
  -- table.
  pub Collects-keeps :
      (cpus : ℕ) (roots : List ObjectReference) (s s' : ImmixSpace I)
      (c : Collects I J cpus roots s s')
      → Collectable c.word cpus roots s
      → (o : ObjectReference) → Reachable s.alloc_map.ptr s.start c.word s.trace_map roots o
      → IsLiveAt s'.line_mark_table.cells ((o - s.start) / bytes_in_line)
        × (is_untraced_and_valid s'.trace_map o ≡ true)
  Collects-keeps cpus roots s s' c ready o r =
      let binary =
        Reach-IsBinary J s.alloc_map.ptr s.start s.end c.word cpus c.traced ready.binary in
      let size = Reach-length J s.alloc_map.ptr s.start s.end c.word cpus c.traced in
      let (w, run, same) = sweep_and_flip-ran c.fuel (traced_space I J s c.workers) c.finished in
      let after =
        sweep-ok_SweptSpace I c.fuel (traced_space I J s c.workers) w
          (AllFit-length s.line_mark_table.cells c.workers.shared.line_mark_table.cells size
            (I.items s.used_blocks) ready.fit)
          run in
      let (traced, alive) =
        Reachable-IsTraced s.alloc_map.ptr s.start c.word s.trace_map J s.end cpus roots ready.apart
          ready.some_cpu ready.few s.line_mark_table ready.valid ready.begins ready.ends c.traced 0
          ready.some_cpu (c.joined 0 ready.some_cpu) o r in
      (
        subst
            (λ (x : ImmixSpace I). IsLiveAt x.line_mark_table.cells ((o - s.start) / bytes_in_line))
            same (Swept-IsLiveAt after.lines ((o - s.start) / bytes_in_line) alive),
        subst (λ (x : ImmixSpace I). is_untraced_and_valid x.trace_map o ≡ true) same
            (subst (λ t. is_untraced_and_valid (flip_mark_state t) o ≡ true) (sym after.rest.3)
              ((flip-swaps c.workers.shared.trace_map o binary).0.1 traced)),
      )

  sweep_and_flip-panicked :
      (fuel : ℕ) (s : ImmixSpace I)
      → sweep_and_flip I J fuel s ≡ err panicked
      → sweep I fuel s ≡ err panicked
  unfolding sweep_and_flip
  sweep_and_flip-panicked fuel s e = by_sweep (sweep I fuel s) e
    where
      by_sweep :
          (r : Outcome (ImmixSpace I))
          → (r >>= λ w. ok (record w { trace_map = flip_mark_state w.trace_map })) ≡ err panicked
          → r ≡ err panicked
      by_sweep (ok w) f = absurd cc
      by_sweep (err x) f = cc

  -- The workers of the trace, from the beginning of a collection on.
  abbrev pub Traces : (Address → ℕ) → ℕ → List ObjectReference → ImmixSpace I → Workers J → Type 0
  Traces word cpus roots s =
      Reach J s.alloc_map.ptr s.start s.end word cpus
        (launched J cpus roots s.trace_map s.line_mark_table)

  -- A collection panics for two reasons only: a worker of the trace has failed, or the trace has ended
  -- and as many blocks are full as the space has. The slices of the used blocks lie inside the line
  -- mark table.
  pub Panics-reasons :
      (cpus : ℕ) (roots : List ObjectReference) (s : ImmixSpace I)
      → AllFit s.line_mark_table.cells (I.items s.used_blocks)
      → Panics I J cpus roots s
      → (word : Address → ℕ) × (w : Workers J) × Traces word cpus roots s w
        × (((i : ℕ) × (i < cpus) × (is_failed (w.pc i) ≡ true))
            ⊎ (((i : ℕ) → i < cpus → w.pc i ≡ returned)
                × (length (filled w.shared.line_mark_table.cells (I.items s.used_blocks))
                    ≡ s.total_blocks)))
  Panics-reasons cpus roots s fit (in_worker word {w} run i below failed) =
      (word, w, run, inl (i, below, failed))
  Panics-reasons cpus roots s fit (in_sweep word {w} run joined fuel e) =
      let size = Reach-length J s.alloc_map.ptr s.start s.end word cpus run in
      (
        word,
        w,
        run,
        inr (
          joined,
          sweep-full_of_panicked I fuel (traced_space I J s w)
              (AllFit-length s.line_mark_table.cells w.shared.line_mark_table.cells size
                (I.items s.used_blocks) fit)
              (sweep_and_flip-panicked fuel (traced_space I J s w) e),
        ),
      )
