-- ===== src/Gc/Barrier/Collected.antt =====
-- src/heap/gc/mod.rs: a collection that `sync_barrier` begins keeps what any mutator can reach.
use Prim.Native.Nat.{ℕ, ◌+◌, ◌-◌, ◌/◌, ◌<◌}
use mathlib.Core.Path.{◌≡◌}
use mathlib.Core.Bool.{true}
use immix_rust.Common.Address.{ObjectReference, usize_mod}
use immix_rust.Common.TraceMap.{is_untraced_and_valid}
use immix_rust.Crossbeam.{Injector}
use immix_rust.Crossbeam.Batch.{BatchInjector}
use immix_rust.Immix.Sizes.{bytes_in_line}
use immix_rust.Immix.Block.{ImmixBlock}
use immix_rust.Immix.LineMark.Marking.{IsLiveAt}
use immix_rust.Immix.Space.{ImmixSpace}
use immix_rust.Gc.Trace.Reachable.{Reachable}
use immix_rust.Gc.Collection.{Collects}
use immix_rust.Gc.Collection.Runs.{Collectable, Collects-keeps, Reachable-mono}
use immix_rust.Gc.Barrier.{collecting, Threads}
use immix_rust.Gc.Barrier.Stages.{is_registered}
use immix_rust.Gc.Barrier.Safety.{Orderly, collecting-stopped}

module _ (I : Injector ImmixBlock) (J : BatchInjector ObjectReference) (cpus slots : ℕ)
    (few : slots + 1 < usize_mod) where
  -- When a thread begins a collection and the collection returns, what any registered thread can
  -- reach from its stack is kept: its line is live, and its word counts as not traced in the next
  -- collection. The conditions are those of `Collects-keeps`, and that mutators register only while
  -- no collection is under way.
  pub collecting-keeps :
      {t : Threads I J cpus} (h : Orderly I J cpus slots few t) (i : ℕ)
      → i < slots
      → t.stages i ≡ collecting
      → (s' : ImmixSpace I) (c : Collects I J cpus t.process.roots t.process.space s')
      → Collectable I J c.word cpus t.process.roots t.process.space
      → (j : ℕ) → j < slots
      → is_registered (t.stages j) ≡ true
      → (o : ObjectReference)
      → Reachable t.process.space.alloc_map.ptr t.process.space.start c.word
          t.process.space.trace_map
          (t.stacks j)
          o
      → IsLiveAt s'.line_mark_table.cells ((o - t.process.space.start) / bytes_in_line)
        × (is_untraced_and_valid s'.trace_map o ≡ true)
  collecting-keeps {t} h i ib at s' c ready j jb registered o r =
      let (who, emptied, rooted) =
        collecting-stopped I J cpus slots few h i ib at j jb registered in
      Collects-keeps I J cpus t.process.roots t.process.space s' c ready o (Reachable-mono rooted r)
