-- ===== src/Gc/Barrier/Acts/Control.antt =====
-- src/heap/gc/mod.rs: what one access of a thread in `sync_barrier` does to the controller, the counts
-- and the place of the thread.
use Prim.Native.Nat.{ℕ, ◌+◌, ◌≤◌, ◌<◌}
use mathlib.Core.Path.{◌≡◌, refl}
use mathlib.Core.Logic.{◌⊎◌, inl, inr}
use mathlib.Core.Bool.{true, false}
use mathlib.Core.List.{List}
use mathlib.Core.Option.{none, some}
use native.Mathlib.Omega.{arith}
use immix_rust.Prelude.Families.{as_one}
use immix_rust.Common.Address.{ObjectReference, wrapping_sub, usize_mod}
use immix_rust.Crossbeam.{Injector}
use immix_rust.Crossbeam.Batch.{BatchInjector}
use immix_rust.Immix.Block.{ImmixBlock}
use immix_rust.Immix.Mutator.{ImmixMutatorLocal}
use immix_rust.Gc.Barrier.{
  Stage, running, counting, still_blocked, Process, heap, Act, work, leave, win, lose, prepare,
  scan, enough, collect, store, clear, park, wait_again,
}
use immix_rust.Gc.Barrier.Stages.{
  in_control, is_late, in_charge, is_parked, is_waiting, is_alone, is_registered, is_woken,
}
use immix_rust.Gc.Barrier.Acts.{clash, destroy-n_mutators}

module _ (I : Injector ImmixBlock) (J : BatchInjector ObjectReference) (cpus : ℕ) where
  abbrev pub Acts :
      ℕ
      → Process I J cpus
      → ImmixMutatorLocal
      → List ObjectReference
      → Stage
      → Process I J cpus
      → ImmixMutatorLocal
      → List ObjectReference
      → Stage
      → Type 0
  Acts = Act I J cpus

  -- Only a registered thread that does not wait acts.
  pub Act-mover :
      {i : ℕ} {m : Process I J cpus} {l : ImmixMutatorLocal} {st : List ObjectReference}
      {m' : Process I J cpus} {l' : ImmixMutatorLocal} {st' : List ObjectReference} {p p' : Stage}
      → Acts i m l st p m' l' st' p'
      → (is_parked p ≡ false) × (is_registered p ≡ true)
  Act-mover (work e) = (refl, refl)
  Act-mover a = (refl, refl)

  -- Control is taken where nobody has it, and given back by whoever has it.
  pub Act-controller :
      {i : ℕ} {m : Process I J cpus} {l : ImmixMutatorLocal} {st : List ObjectReference}
      {m' : Process I J cpus} {l' : ImmixMutatorLocal} {st' : List ObjectReference} {p p' : Stage}
      → Acts i m l st p m' l' st' p'
      → ((m'.controller ≡ m.controller) × (in_control p' ≡ in_control p))
        ⊎ ((m.controller ≡ none)
            × (m'.controller ≡ some i)
            × (in_control p ≡ false)
            × (in_control p' ≡ true))
        ⊎ ((in_control p ≡ true) × (m'.controller ≡ none) × (in_control p' ≡ false))
  Act-controller (win flag free) = inr (inl (free, refl, refl, refl))
  Act-controller store = inr (inr (refl, refl, refl))
  Act-controller (prepare {saw = none}) = inl (refl, refl)
  Act-controller (prepare {saw = some k}) = inl (refl, refl)
  Act-controller a = inl (refl, refl)

  -- How the number of mutators changes.
  pub Act-registered :
      {i : ℕ} {m : Process I J cpus} {l : ImmixMutatorLocal} {st : List ObjectReference}
      {m' : Process I J cpus} {l' : ImmixMutatorLocal} {st' : List ObjectReference} {p p' : Stage}
      → Acts i m l st p m' l' st' p'
      → 1 ≤ m.n_mutators
      → m.n_mutators < usize_mod
      → as_one (is_registered p') + m.n_mutators ≡ as_one (is_registered p) + m'.n_mutators
  Act-registered {m} {l} leave some_mutator low =
      omega (arith, destroy-n_mutators I (heap I J cpus m l))
  Act-registered a some_mutator low = refl

  -- How the count changes, if no thread that is woken is still to wait.
  pub Act-parked :
      {i : ℕ} {m : Process I J cpus} {l : ImmixMutatorLocal} {st : List ObjectReference}
      {m' : Process I J cpus} {l' : ImmixMutatorLocal} {st' : List ObjectReference} {p p' : Stage}
      → Acts i m l st p m' l' st' p'
      → (is_woken p ≡ true → still_blocked l.id m.mutators ≡ false)
      → m.stw_count + 1 < usize_mod
      → as_one (is_parked p') + m.stw_count ≡ as_one (is_parked p) + m'.stw_count
  Act-parked park flag low = omega arith
  Act-parked (wait_again e) flag low = absurd (clash (flag refl) e)
  Act-parked a flag low = refl

  pub Act-count-le :
      {i : ℕ} {m : Process I J cpus} {l : ImmixMutatorLocal} {st : List ObjectReference}
      {m' : Process I J cpus} {l' : ImmixMutatorLocal} {st' : List ObjectReference} {p p' : Stage}
      → Acts i m l st p m' l' st' p'
      → m.stw_count + 1 < usize_mod
      → m.stw_count ≤ m'.stw_count
  Act-count-le park low = omega arith
  Act-count-le a low = omega arith

  pub Act-alone :
      {i : ℕ} {m : Process I J cpus} {l : ImmixMutatorLocal} {st : List ObjectReference}
      {m' : Process I J cpus} {l' : ImmixMutatorLocal} {st' : List ObjectReference} {p p' : Stage}
      → Acts i m l st p m' l' st' p'
      → is_alone p' ≡ true
      → (is_alone p ≡ true)
        ⊎ ((count : ℕ) × (p ≡ counting count) × ¬ (count < wrapping_sub m.n_mutators 1) × (m' ≡ m))
  Act-alone (enough {count} e) h = inr (count, refl, e, refl)
  Act-alone (collect c) h = inl refl
  Act-alone store h = inl refl
  Act-alone clear h = inl refl
  Act-alone a h = cc

  pub Act-charge :
      {i : ℕ} {m : Process I J cpus} {l : ImmixMutatorLocal} {st : List ObjectReference}
      {m' : Process I J cpus} {l' : ImmixMutatorLocal} {st' : List ObjectReference} {p p' : Stage}
      → Acts i m l st p m' l' st' p'
      → in_charge p ≡ true
      → in_charge p' ≡ true
  Act-charge (prepare {saw = none}) h = refl
  Act-charge (prepare {saw = some k}) h = cc
  Act-charge a h = ground arith

  pub Act-waiting :
      {i : ℕ} {m : Process I J cpus} {l : ImmixMutatorLocal} {st : List ObjectReference}
      {m' : Process I J cpus} {l' : ImmixMutatorLocal} {st' : List ObjectReference} {p p' : Stage}
      → Acts i m l st p m' l' st' p'
      → (is_woken p ≡ true → still_blocked l.id m.mutators ≡ false)
      → is_waiting p' ≡ true
      → (is_waiting p ≡ true) ⊎ ((k : ℕ) × (m.controller ≡ some k) × (p ≡ running))
  Act-waiting (lose {k} f e) flag h = inr (k, e, refl)
  Act-waiting (wait_again e) flag h = absurd (clash (flag refl) e)
  Act-waiting (prepare {saw = none}) flag h = cc
  Act-waiting (prepare {saw = some k}) flag h = inl refl
  Act-waiting (scan other) flag h = inl refl
  Act-waiting park flag h = inl refl
  Act-waiting a flag h = cc

  pub Act-late :
      {i : ℕ} {m : Process I J cpus} {l : ImmixMutatorLocal} {st : List ObjectReference}
      {m' : Process I J cpus} {l' : ImmixMutatorLocal} {st' : List ObjectReference} {p p' : Stage}
      → Acts i m l st p m' l' st' p'
      → is_late p' ≡ true
      → (is_late p ≡ true) ⊎ (m'.controller ≡ none)
  Act-late store h = inr refl
  Act-late clear h = inl refl
  Act-late a h = cc
