-- ===== src/Gc/Barrier/Meeting.antt =====
-- src/heap/gc/mod.rs: what holds at every moment of `sync_barrier`.
use Prim.Native.Nat.{ℕ, ◌<◌}
use mathlib.Core.Path.{◌≡◌}
use mathlib.Core.Logic.{◌≢◌, ◌⊎◌}
use mathlib.Core.Bool.{true, false}
use mathlib.Core.Option.{none, some}
use immix_rust.Prelude.Families.{tally}
use immix_rust.Prelude.Members.{Has}
use immix_rust.Common.Address.{ObjectReference}
use immix_rust.Crossbeam.{Injector}
use immix_rust.Crossbeam.Batch.{BatchInjector}
use immix_rust.Immix.Block.{ImmixBlock}
use immix_rust.Gc.Barrier.{Stage, still_blocked, Threads}
use immix_rust.Gc.Barrier.Stages.{
  in_control, is_late, in_charge, is_parked, is_waiting, is_alone, is_registered, is_emptied,
  is_scanned, is_drained, is_woken, is_resetting, is_clashed, SawOther, Seen,
}

-- A thread has run the collection that the others wait for.
abbrev pub Drained : ℕ → (ℕ → Stage) → Type 0
Drained slots stages = (k : ℕ) × (k < slots) × (is_drained (stages k) ≡ true)

pub record Meeting (I : Injector ImmixBlock) (J : BatchInjector ObjectReference) (cpus slots : ℕ)
    (t : Threads I J cpus) : Type 0 where
  pub control_of :
      (i : ℕ) → i < slots → in_control (t.stages i) ≡ true → t.process.controller ≡ some i
  pub control_at :
      (i : ℕ) → t.process.controller ≡ some i → (i < slots) × (in_control (t.stages i) ≡ true)
  pub registered : t.process.n_mutators ≡ tally is_registered slots t.stages
  pub parked_count : t.process.stw_count ≡ tally is_parked slots t.stages
  -- Who has seen that all others are parked is right.
  pub alone :
      (i : ℕ)
      → i < slots
      → is_alone (t.stages i) ≡ true
      → (j : ℕ) → j < slots
      → i ≢ j
      → is_registered (t.stages j) ≡ true
      → is_parked (t.stages j) ≡ true
  pub late : (i : ℕ) → i < slots → is_late (t.stages i) ≡ true → t.process.controller ≡ none
  -- Nobody waits for nobody.
  pub charge :
      (j : ℕ)
      → j < slots
      → is_waiting (t.stages j) ≡ true
      → (i : ℕ) × (i < slots) × (in_charge (t.stages i) ≡ true)
  pub emptied : (j : ℕ) → j < slots → is_emptied (t.stages j) ≡ true → (t.locals j).block ≡ none
  pub scanned :
      (j : ℕ)
      → j < slots
      → is_scanned (t.stages j) ≡ true
      → Drained slots t.stages
        ⊎ ((o : ObjectReference) → Has o (t.stacks j) → Has o t.process.roots)
  pub saw : (j : ℕ) → j < slots → SawOther j (t.stages j)
  pub seen : (j : ℕ) → j < slots → Seen t.process.stw_count (t.stages j)
  pub ids : (j : ℕ) → j < slots → is_registered (t.stages j) ≡ true → (t.locals j).id ≡ j
  pub woken :
      (j : ℕ)
      → j < slots
      → is_woken (t.stages j) ≡ true
      → still_blocked j t.process.mutators ≡ false
  pub cleared :
      (i : ℕ)
      → i < slots
      → is_resetting (t.stages i) ≡ true
      → (j : ℕ) → still_blocked j t.process.mutators ≡ false
  pub unclashed : (j : ℕ) → j < slots → is_clashed (t.stages j) ≡ false
