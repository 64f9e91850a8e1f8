-- ===== src/Gc/Barrier.antt =====
-- src/heap/gc/mod.rs: `sync_barrier` and `block_current_thread`, where the mutators meet for a
-- collection, one access to what they share at a time. The test of `take_yield` and the
-- `compare_exchange` count as one access: of the accesses of other threads only the clearing of the
-- flags could come between, and that waits for this thread. `cvar.wait` returns only when notified.
pub mod Stages
pub mod Flags
pub mod Acts
pub mod Meeting
pub mod Going
pub mod Resuming
pub mod Joining
pub mod Safety
pub mod Progress
pub mod Collected
use Prim.Native.Nat.{ℕ, zero, suc, ◌+◌, ◌<◌}
use mathlib.Core.Path.{◌≡◌}
use mathlib.Core.Logic.{◌≢◌}
use mathlib.Core.Bool.{Bool, true, false}
use mathlib.Core.List.{List, [], ◌∷◌, ◌++◌}
use mathlib.Core.Option.{Option, none, some}
use immix_rust.Prelude.{◌==◌, if◌then◌else◌}
use immix_rust.Prelude.Families.{with_thread}
use immix_rust.Common.Address.{ObjectReference, wrapping_add, wrapping_sub}
use immix_rust.Crossbeam.{Injector}
use immix_rust.Crossbeam.Batch.{BatchInjector}
use immix_rust.Immix.Block.{ImmixBlock}
use immix_rust.Immix.Globals.{
  ImmixMutatorGlobal, set_take_yield, set_still_blocked, Mutators, for_each, trigger_gc,
}
use immix_rust.Immix.Space.{ImmixSpace}
use immix_rust.Immix.Mutator.{
  ImmixMutatorLocal, reset, global, Heap, new, destroy, take_yield, prepare_for_gc,
}
use immix_rust.Gc.Collection.{Collects, Panics}

-- Where the thread of a mutator stands. `saw` is the result of the `compare_exchange`: the controller
-- that was there, or `none` if the thread has become the controller.
pub data Stage : Type 0 where
  absent : Stage  -- no mutator is registered under the index
  running : Stage  -- outside `sync_barrier`
  entered : (saw : Option ℕ) → Stage  -- behind the `compare_exchange`
  prepared : (saw : Option ℕ) → Stage  -- behind `prepare_for_gc`
  counting : (count : ℕ) → Stage  -- before the test of the `while` loop
  reading : (count : ℕ) → Stage  -- in the loop, before the lock is taken
  collecting : Stage  -- before `gc`
  storing : Stage  -- before `CONTROLLER.store`
  clearing : Stage  -- before the flags of the mutators are cleared
  resetting : Stage  -- before the count is set back and the others are notified
  parking : Stage  -- before `block_current_thread`
  parked : Stage  -- in `cvar.wait`
  woken : Stage  -- notified, before the lock is taken again
  clashed : Stage  -- behind the failed `assert_ne!`
  panicked : Stage  -- behind a panic in `gc`

-- `set_still_blocked` on the flags that are registered under `id`.
unfoldable pub block_entry : ℕ → Mutators → Mutators
block_entry id [] = []
block_entry id ((i, g) ∷ rest) =
    if i == id then (i, set_still_blocked true g) ∷ rest else (i, g) ∷ block_entry id rest

-- The flag that `is_still_blocked` reads.
unfoldable pub still_blocked : ℕ → Mutators → Bool
unfolding global
still_blocked id mutators = elim (global id mutators) [ none ↦ false | some g ↦ g.still_blocked ]

-- `mutator.set_take_yield(false); mutator.set_still_blocked(false)`
abbrev pub cleared_flags : ImmixMutatorGlobal → ImmixMutatorGlobal
cleared_flags g = set_still_blocked false (set_take_yield false g)

-- `notify_all` wakes the threads that wait.
abbrev pub wake : Stage → Stage
wake parked = woken
wake stage = stage

module _ (I : Injector ImmixBlock) (J : BatchInjector ObjectReference) (cpus : ℕ) where
  -- What the threads share.
  pub record Process : Type 0 where
    pub space : ImmixSpace I
    pub mutators : Mutators  -- MUTATORS
    pub n_mutators : ℕ  -- N_MUTATORS
    pub controller : Option ℕ  -- CONTROLLER, `none` for NO_CONTROLLER
    pub stw_count : ℕ  -- the number under the lock of STW_COND
    pub roots : List ObjectReference  -- ROOTS
    pub gc_count : ℕ  -- GC_COUNT

  -- What a thread sees of it, with its own mutator.
  abbrev pub heap : Process → ImmixMutatorLocal → Heap I
  heap m local = record {
    local = local;
    space = m.space;
    mutators = m.mutators;
    n_mutators = m.n_mutators;
  }

  -- One access of the thread `i`. `stack` is what `stack_scan` finds for it.
  pub data Act (i : ℕ) (m : Process) (local : ImmixMutatorLocal) (stack : List ObjectReference)
      : Stage → Process → ImmixMutatorLocal → List ObjectReference → Stage → Type 0 where
    -- Anything that a mutator does between two yield points, the allocation of objects included.
    work :
        {space : ImmixSpace I} {local' : ImmixMutatorLocal} {stack' : List ObjectReference}
        → local'.id ≡ local.id
        → Act i m local stack running (record m { space = space }) local' stack' running
    trigger :
        Act i m local stack running
          (record m { mutators = trigger_gc m.mutators })
          local
          stack
          running
    leave :
        Act i m local stack running
          (record m {
            space = (destroy I (heap m local)).space;
            mutators = (destroy I (heap m local)).mutators;
            n_mutators = (destroy I (heap m local)).n_mutators;
          })
          (destroy I (heap m local)).local
          stack
          absent
    win :
        take_yield I (heap m local) ≡ true
        → m.controller ≡ none
        → Act i m local stack running (record m { controller = some i }) local stack (entered none)
    lose :
        {k : ℕ}
        → take_yield I (heap m local) ≡ true
        → m.controller ≡ some k
        → Act i m local stack running m local stack (entered (some k))
    prepare :
        {saw : Option ℕ}
        → Act i m local stack
            (entered saw)
            (record m { space = (prepare_for_gc I (heap m local)).space })
            (prepare_for_gc I (heap m local)).local
            stack
            (prepared saw)
    scan_first :
        Act i m local stack
          (prepared none)
          (record m { roots = m.roots ++ stack })
          local
          stack
          (counting zero)
    scan :
        {k : ℕ}
        → k ≢ i
        → Act i m local stack
            (prepared (some k))
            (record m { roots = m.roots ++ stack })
            local
            stack
            parking
    scan_clash :
        {k : ℕ}
        → k ≡ i
        → Act i m local stack
            (prepared (some k))
            (record m { roots = m.roots ++ stack })
            local
            stack
            clashed
    more :
        {count : ℕ}
        → count < wrapping_sub m.n_mutators 1
        → Act i m local stack (counting count) m local stack (reading count)
    read : {count : ℕ} → Act i m local stack (reading count) m local stack (counting m.stw_count)
    enough :
        {count : ℕ}
        → ¬ (count < wrapping_sub m.n_mutators 1)
        → Act i m local stack (counting count) m local stack collecting
    collect :
        {space : ImmixSpace I}
        → Collects I J cpus m.roots m.space space
        → Act i m local stack collecting
            (record m { space = space; roots = []; gc_count = wrapping_add m.gc_count 1 })
            local
            stack
            storing
    collect_panics :
        {space : ImmixSpace I}
        → Panics I J cpus m.roots m.space
        → Act i m local stack collecting
            (record m { space = space; roots = []; gc_count = wrapping_add m.gc_count 1 })
            local
            stack
            panicked
    store : Act i m local stack storing (record m { controller = none }) local stack clearing
    clear :
        Act i m local stack clearing
          (record m { mutators = for_each cleared_flags m.mutators })
          local
          stack
          resetting
    park :
        Act i m local stack parking
          (record m {
            stw_count = wrapping_add m.stw_count 1;
            mutators = block_entry local.id m.mutators;
          })
          local
          stack
          parked
    unblock :
        still_blocked local.id m.mutators ≡ false
        → Act i m local stack woken m (reset local) stack running
    wait_again :
        still_blocked local.id m.mutators ≡ true → Act i m local stack woken m local stack parked

  -- The mutators under the indices `0 .. slots - 1`.
  pub record Threads : Type 0 where
    pub process : Process
    pub stages : ℕ → Stage
    pub locals : ℕ → ImmixMutatorLocal
    pub stacks : ℕ → List ObjectReference

  pub data Turn (slots : ℕ) (t : Threads) : Threads → Type 0 where
    by :
        (i : ℕ) {m : Process} {local : ImmixMutatorLocal} {stack : List ObjectReference} {p : Stage}
        → i < slots
        → Act i t.process (t.locals i) (t.stacks i) (t.stages i) m local stack p
        → Turn slots t (record {
          process = m;
          stages = with_thread i p t.stages;
          locals = with_thread i local t.locals;
          stacks = with_thread i stack t.stacks;
        })
    -- The controller resets its mutator, sets the count back and notifies the others.
    resume :
        (i : ℕ)
        → i < slots
        → t.stages i ≡ resetting
        → Turn slots t (record t {
          process = record t.process { stw_count = 0 };
          stages = λ j. wake (with_thread i running t.stages j);
          locals = with_thread i (reset (t.locals i)) t.locals;
        })

  pub data Turns (slots : ℕ) (t : Threads) : Threads → Type 0 where
    stay : Turns slots t t
    go : {u v : Threads} → Turns slots t u → Turn slots u v → Turns slots t v

  -- `ImmixMutatorLocal::new`, by which a thread registers a mutator under a free index.
  abbrev pub registered_at : ℕ → List ObjectReference → Threads → Threads
  registered_at i stack t =
      let h = new I i t.process.space t.process.mutators t.process.n_mutators in
      record {
        process = record t.process { mutators = h.mutators; n_mutators = h.n_mutators };
        stages = with_thread i running t.stages;
        locals = with_thread i h.local t.locals;
        stacks = with_thread i stack t.stacks;
      }

  -- What happens up to a moment: mutators register, where `may_join` lets them, and threads go on.
  pub data History (slots : ℕ) (may_join : Threads → Type 0) : Threads → Type 0 where
    begin :
        (space : ImmixSpace I) (locals : ℕ → ImmixMutatorLocal) (stacks : ℕ → List ObjectReference)
        → History slots may_join (record {
          process = record {
            space = space;
            mutators = [];
            n_mutators = 0;
            controller = none;
            stw_count = 0;
            roots = [];
            gc_count = 0;
          };
          stages = λ _. absent;
          locals = locals;
          stacks = stacks;
        })
    turn : {t u : Threads} → History slots may_join t → Turn slots t u → History slots may_join u
    join :
        {t : Threads} (i : ℕ) (stack : List ObjectReference)
        → History slots may_join t
        → i < slots
        → t.stages i ≡ absent
        → may_join t
        → History slots may_join (registered_at i stack t)
