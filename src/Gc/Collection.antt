-- ===== src/Gc/Collection.antt =====
-- src/heap/gc/mod.rs: `gc`, which traces, sweeps and flips the mark state.
pub mod Runs
use Prim.Native.Nat.{ℕ, ◌+◌, ◌-◌, ◌*◌, ◌/◌, ◌<◌, ◌≤◌}
use mathlib.Core.Path.{◌≡◌, sym, ap, subst, ◌∙◌}
use mathlib.Core.Logic.{◌≢◌, inl, inr}
use mathlib.Core.Bool.{Bool, true}
use mathlib.Core.List.{List}
use mathlib.Core.Option.{some}
use native.Mathlib.Omega.{arith}
use immix_rust.Prelude.{Outcome, ok, err, panicked, ◌>>=◌, length, Bool-cases}
use immix_rust.Common.Address.{Address, ObjectReference, usize_mod}
use immix_rust.Common.TraceMap.{flip_mark_state, is_untraced_and_valid}
use immix_rust.Common.TraceMap.Marks.{IsBinary, flip-swaps}
use immix_rust.Crossbeam.{Injector}
use immix_rust.Crossbeam.Batch.{BatchInjector}
use immix_rust.Immix.Sizes.{bytes_in_line}
use immix_rust.Immix.Block.{ImmixBlock}
use immix_rust.Immix.LineMark.{LineMark, is_live}
use immix_rust.Immix.LineMark.Marking.{IsTable, IsLiveAt}
use immix_rust.Immix.Space.{ImmixSpace}
use immix_rust.Immix.Space.Sweep.{sweep}
use immix_rust.Immix.Space.Sweep.Lines.{Swept, swept}
use immix_rust.Immix.Space.Sweep.Blocks.{AllFit, filled}
use immix_rust.Immix.Space.Sweep.Total.{sweep-SweptSpace}
use immix_rust.Gc.Trace.{returned, Workers, launched, Reach}
use immix_rust.Gc.Trace.Reachable.{Reachable, is_failed}
use immix_rust.Gc.Trace.Progress.References.{Apart}
use immix_rust.Gc.Trace.Completeness.{Reachable-IsTraced}

swept_live : (m : LineMark) → is_live m ≡ true → swept m ≡ m
swept_live m h = ground arith

-- Sweeping keeps the lines that are live.
pub Swept-IsLiveAt :
    {covered : ℕ → Bool} {cells cells' : List LineMark}
    → Swept covered cells cells'
    → (j : ℕ) → IsLiveAt cells j
    → IsLiveAt cells' j
Swept-IsLiveAt {covered} {cells} w j (m, e, h) = elim (Bool-cases (covered j)) [
  | inl inside ↦ (m, w.at j ∙ rw (inside, e) (ap some (swept_live m h)), h)
  | inr outside ↦ (m, w.at j ∙ rw outside e, h)
]

module _ (I : Injector ImmixBlock) (J : BatchInjector ObjectReference) where
  -- The space after the trace, whose workers came to `w`.
  abbrev pub traced_space : ImmixSpace I → Workers J → ImmixSpace I
  traced_space s w = record s {
    trace_map = w.shared.trace_map;
    line_mark_table = w.shared.line_mark_table;
  }

  -- `gc` behind `start_trace`.
  unfoldable pub sweep_and_flip : ℕ → ImmixSpace I → Outcome (ImmixSpace I)
  unfolding flip_mark_state
  sweep_and_flip fuel s = do
    s' ← sweep I fuel s
    ok (record s' { trace_map = flip_mark_state s'.trace_map })

  -- A run of `gc` that returns: the trace ends, whatever the interleaving of its workers, and so does
  -- the rest. `word` is the memory, which no mutator changes meanwhile.
  pub record Collects (cpus : ℕ) (roots : List ObjectReference) (s s' : ImmixSpace I) : Type 0 where
    pub word : Address → ℕ
    pub workers : Workers J
    pub traced :
        Reach J s.alloc_map.ptr s.start s.end word cpus
          (launched J cpus roots s.trace_map s.line_mark_table)
          workers
    pub joined : (i : ℕ) → i < cpus → workers.pc i ≡ returned
    pub fuel : ℕ
    pub finished : sweep_and_flip fuel (traced_space s workers) ≡ ok s'

  -- A run of `gc` that panics, where the threads are joined or in `sweep`.
  pub data Panics (cpus : ℕ) (roots : List ObjectReference) (s : ImmixSpace I) : Type 0 where
    in_worker :
        (word : Address → ℕ) {w : Workers J}
        → Reach J s.alloc_map.ptr s.start s.end word cpus
            (launched J cpus roots s.trace_map s.line_mark_table)
            w
        → (i : ℕ) → i < cpus
        → is_failed (w.pc i) ≡ true
        → Panics cpus roots s
    in_sweep :
        (word : Address → ℕ) {w : Workers J}
        → Reach J s.alloc_map.ptr s.start s.end word cpus
            (launched J cpus roots s.trace_map s.line_mark_table)
            w
        → ((i : ℕ) → i < cpus → w.pc i ≡ returned)
        → (fuel : ℕ) → sweep_and_flip fuel (traced_space s w) ≡ err panicked
        → Panics cpus roots s

  module _ (word : Address → ℕ) (cpus : ℕ) (roots : List ObjectReference) (s : ImmixSpace I)
      (apart : Apart s.alloc_map.ptr s.start word s.trace_map J s.end cpus roots)
      (some_cpu : 0 < cpus) (few : cpus + 1 < usize_mod) (valid : IsTable s.line_mark_table)
      (begins : s.line_mark_table.space_start ≡ s.start)
      (ends : s.end ≤ s.start + s.line_mark_table.len * bytes_in_line) where
    -- After a trace that has ended, under the conditions of `Reachable-IsTraced`, if the trace map
    -- holds only the values 0 and 1, the slices of the used blocks lie inside the line mark table
    -- and not as many blocks are full as the space has, the rest of the collection ends and
    -- returns; the lines of all objects that the roots lead to, through words that were not traced
    -- before, are still live, and their words count as not traced, so that the next collection
    -- follows them again.
    pub sweep_and_flip-keeps :
        (w : Workers J)
        → Reach J s.alloc_map.ptr s.start s.end word cpus
            (launched J cpus roots s.trace_map s.line_mark_table)
            w
        → (i : ℕ) → i < cpus
        → w.pc i ≡ returned
        → IsBinary w.shared.trace_map
        → AllFit w.shared.line_mark_table.cells (I.items s.used_blocks)
        → length (filled w.shared.line_mark_table.cells (I.items s.used_blocks)) ≢ s.total_blocks
        → (fuel : ℕ) × (s' : ImmixSpace I) × (sweep_and_flip fuel (traced_space s w) ≡ ok s')
          × ((o : ObjectReference)
              → Reachable s.alloc_map.ptr s.start word s.trace_map roots o
              → IsLiveAt s'.line_mark_table.cells ((o - s.start) / bytes_in_line)
                × (is_untraced_and_valid s'.trace_map o ≡ true))
    unfolding sweep_and_flip
    sweep_and_flip-keeps w run i below at binary fit room =
        let (fuel, s', swept_run, after) = sweep-SweptSpace I (traced_space s w) fit room in
        (
          fuel,
          record s' { trace_map = flip_mark_state s'.trace_map },
          rw swept_run,
          λ o r.
              let (traced, alive) =
                Reachable-IsTraced s.alloc_map.ptr s.start word s.trace_map J s.end cpus roots apart
                  some_cpu few s.line_mark_table valid begins ends run i below at o r in
              (
                Swept-IsLiveAt after.lines ((o - s.start) / bytes_in_line) alive,
                subst (λ t. is_untraced_and_valid (flip_mark_state t) o ≡ true) (sym after.rest.3)
                    ((flip-swaps w.shared.trace_map o binary).0.1 traced),
              ),
        )
