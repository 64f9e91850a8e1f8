-- ===== src/Tests/Barriers.antt =====
-- src/heap/gc/mod.rs: two mutators that meet for a collection.
use Prim.Native.Nat.{◌-◌, ◌/◌, ℕ, zero, suc, ◌<◌}
use mathlib.Core.Path.{◌≡◌, refl, ap, ◌∙◌}
use mathlib.Core.Logic.{◌≢◌, ◌⊎◌, inl, inr}
use mathlib.Core.Bool.{true, false}
use mathlib.Core.List.{List, [], ◌∷◌}
use mathlib.Core.Option.{none}
use native.Mathlib.Omega.{arith}
use immix_rust.Prelude.Families.{tally, with_thread}
use immix_rust.Prelude.Members.{Has}
use immix_rust.Common.Address.{ObjectReference}
use immix_rust.Immix.Globals.{trigger_gc}
use immix_rust.Immix.Mutator.{ImmixMutatorLocal, new, take_yield, return_block, global}
use immix_rust.Gc.Barrier.{
  Stage, collecting, counting, running, parked, woken, block_entry, still_blocked, Process, Threads,
  Act, trigger, win, lose, prepare, scan_first, scan, more, read, enough, park, collect, store,
  clear, Turn, resume, Turns, by, History, begin, turn, join,
}
use immix_rust.Gc.Barrier.Stages.{is_parked, is_registered, in_charge, is_clashed, is_waiting}
use immix_rust.Gc.Barrier.Safety.{
  Orderly, collecting-stopped, in_charge_unique, never_clashed, n_mutators-tally,
}
use immix_rust.Gc.Barrier.Progress.{counting-collects, Idle-nobody_waits}
use immix_rust.Tests.Spaces.{Blocks}
use immix_rust.Tests.Traces.{References, second_reachable}
use immix_rust.Tests.Collections.{visited_space, visited_space-Collectable, ran}
use immix_rust.Gc.Barrier.Collected.{collecting-keeps}
use immix_rust.Immix.LineMark.Marking.{IsLiveAt}
use immix_rust.Immix.Sizes.{bytes_in_line}
use immix_rust.Common.TraceMap.{is_untraced_and_valid}

abbrev T : Type 0
T = Threads Blocks References 1

abbrev Past : T → Type 0
Past = Orderly Blocks References 1 2 (omega arith)

abbrev no_mutator : ImmixMutatorLocal
no_mutator = record { id = 0; space_start = 512; cursor = 0; limit = 0; line = 0; block = none }

infixl 4 ◌▸◌
-- The first mutator goes on.
◌▸◌ :
    {t : T} {m : Process Blocks References 1} {l : ImmixMutatorLocal} {st : List ObjectReference}
    {p : Stage}
    → Past t
    → Act Blocks References 1 0 t.process (t.locals 0) (t.stacks 0) (t.stages 0) m l st p
    → Past (record {
      process = m;
      stages = with_thread 0 p t.stages;
      locals = with_thread 0 l t.locals;
      stacks = with_thread 0 st t.stacks;
    })
h ▸ a = turn h (by 0 (omega arith) a)

infixl 4 ◌▹◌
-- The second mutator goes on.
◌▹◌ :
    {t : T} {m : Process Blocks References 1} {l : ImmixMutatorLocal} {st : List ObjectReference}
    {p : Stage}
    → Past t
    → Act Blocks References 1 1 t.process (t.locals 1) (t.stacks 1) (t.stages 1) m l st p
    → Past (record {
      process = m;
      stages = with_thread 1 p t.stages;
      locals = with_thread 1 l t.locals;
      stacks = with_thread 1 st t.stacks;
    })
h ▹ a = turn h (by 1 (omega arith) a)

-- The first mutator has found the root at 512 and wins; the second has none, and parks. The first
-- is about to test how many are parked.
unfoldable counted :
    (t : T) × Past t
    × (t.stages 0 ≡ counting 0)
    × (t.stages 1 ≡ parked)
    × (t.process.roots ≡ 512 ∷ [])
    × (t.process.space ≡ visited_space)
    × (t.stacks 0 ≡ 512 ∷ [])
    × (t.process.n_mutators ≡ 2)
    × (t.process.stw_count ≡ 1)
unfolding new global take_yield trigger_gc block_entry still_blocked return_block
counted =
    let alone =
      join 0 (512 ∷ []) (begin visited_space (λ _. no_mutator) (λ _. [])) (omega arith) refl
        (λ j jb. refl) in
    let both = join 1 [] alone (omega arith) refl (λ j jb. ground arith) in
    let begun = both ▸ trigger ▸ win refl refl ▹ lose refl refl in
    let blocked = begun ▹ prepare ▹ scan (omega arith) ▹ park in
    (_, blocked ▸ prepare ▸ scan_first, refl, refl, refl, refl, refl, refl, refl)

-- It finds that the other one is parked, and begins the collection.
unfoldable stopped :
    (t : T) × Past t
    × (t.stages 0 ≡ collecting)
    × (t.stages 1 ≡ parked)
    × (t.process.roots ≡ 512 ∷ [])
    × (t.process.space ≡ visited_space)
    × (t.stacks 0 ≡ 512 ∷ [])
unfolding counted
stopped = (
  _,
  counted.1 ▸ more (omega arith) ▸ read ▸ enough (omega arith),
  refl,
  refl,
  counted.4,
  counted.5,
  counted.6,
)

-- The collection ends, and the second mutator is notified.
resumed : (t : T) × Past t × (t.stages 0 ≡ running) × (t.stages 1 ≡ woken)
unfolding counted stopped new global take_yield trigger_gc block_entry still_blocked return_block
resumed =
    let swept = stopped.1 ▸ collect ran.1 ▸ store ▸ clear in
    (_, turn swept (resume 0 (omega arith) refl), refl, refl)

others_parked :
    (j : ℕ)
    → j < 2
    → 0 ≢ j
    → is_registered (counted.0.stages j) ≡ true
    → counted.0.stages j ≡ parked
others_parked zero jb other r = absurd (other refl)
others_parked (suc zero) jb other r = counted.3
others_parked (suc (suc j)) jb other r = absurd (omega arith)

counting-collects_example :
    (u : T) × Turns Blocks References 1 2 counted.0 u × (u.stages 0 ≡ collecting)
counting-collects_example =
    counting-collects Blocks References 1 2 (omega arith) counted.1 0 0 (omega arith) counted.2
      others_parked

two_threads : (j : ℕ) → j < 2 → (j ≡ 0) ⊎ (j ≡ 1)
two_threads j jb = omega arith

collecting-stopped_example :
    (◌≡◌ {A = ℕ} 0 1 ⊎ (stopped.0.stages 1 ≡ parked))
    × ((stopped.0.locals 1).block ≡ none)
    × ((o : ObjectReference) → Has o (stopped.0.stacks 1) → Has o stopped.0.process.roots)
collecting-stopped_example =
    collecting-stopped Blocks References 1 2 (omega arith) stopped.1 0 (omega arith) stopped.2 1
      (omega arith) (ap is_registered stopped.3)

in_charge_unique_example : ◌≡◌ {A = ℕ} 0 0
in_charge_unique_example =
    in_charge_unique Blocks References 1 2 (omega arith) stopped.1 0 0 (omega arith) (omega arith)
      (ap in_charge stopped.2) (ap in_charge stopped.2)

n_mutators-tally_example :
    (stopped.0.process.n_mutators ≡ tally is_registered 2 stopped.0.stages)
    × (stopped.0.process.stw_count ≡ tally is_parked 2 stopped.0.stages)
n_mutators-tally_example = n_mutators-tally Blocks References 1 2 (omega arith) stopped.1

never_clashed_example : is_clashed (stopped.0.stages 1) ≡ false
never_clashed_example = never_clashed Blocks References 1 2 (omega arith) stopped.1 1 (omega arith)

Idle-nobody_waits_example :
    (is_waiting (resumed.0.stages 1) ≡ false)
    × (resumed.0.stages 1 ≡ woken
        → (u : T) × Turn Blocks References 1 2 resumed.0 u × (u.stages 1 ≡ running))
Idle-nobody_waits_example =
    Idle-nobody_waits Blocks References 1 2 (omega arith) resumed.1
      (λ j jb. elim (two_threads j jb) [
        | inl e ↦ ap in_charge (ap resumed.0.stages e ∙ resumed.2)
        | inr e ↦ ap in_charge (ap resumed.0.stages e ∙ resumed.3)
      ])
      1 (omega arith)

-- Where mutators may register at any time, one of them runs while the other collects.
unstopped :
    (t : T) × History Blocks References 1 2 (λ _. Unit) t
    × (t.stages 0 ≡ collecting)
    × (t.stages 1 ≡ running)
unfolding new global take_yield trigger_gc
unstopped =
    let alone = join 0 [] (begin visited_space (λ _. no_mutator) (λ _. [])) (omega arith) refl tt in
    let asked = turn alone (by 0 (omega arith) trigger) in
    let begun = turn asked (by 0 (omega arith) (win refl refl)) in
    let gone = turn begun (by 0 (omega arith) prepare) in
    let scanned = turn gone (by 0 (omega arith) scan_first) in
    let counted = turn scanned (by 0 (omega arith) (enough (omega arith))) in
    (_, join 1 [] counted (omega arith) refl tt, refl, refl)

collecting-keeps_example :
    IsLiveAt ran.0.line_mark_table.cells ((520 - 512) / bytes_in_line)
    × (is_untraced_and_valid ran.0.trace_map 520 ≡ true)
unfolding counted stopped ran new global take_yield trigger_gc block_entry still_blocked
    return_block
collecting-keeps_example =
    collecting-keeps Blocks References 1 2 (omega arith) stopped.1 0 (omega arith) stopped.2 ran.0
      ran.1 visited_space-Collectable 0 (omega arith) (ap is_registered stopped.2) 520
      second_reachable
