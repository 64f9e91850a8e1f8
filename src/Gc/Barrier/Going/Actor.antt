-- ===== src/Gc/Barrier/Going/Actor.antt =====
-- src/heap/gc/mod.rs: an access of a thread in `sync_barrier`, and the two counts.
use Prim.Native.Nat.{ℕ, ◌+◌, ◌≤◌, ◌<◌}
use mathlib.Core.Path.{◌≡◌, sym, ap, subst, ◌∙◌}
use mathlib.Core.Logic.{◌≢◌}
use mathlib.Core.Bool.{Bool, true, false}
use mathlib.Core.List.{List}
use native.Mathlib.Omega.{arith}
use native.Mathlib.Decide.{ℕ_discrete}
use immix_rust.Prelude.Families.{
  with_thread, with_thread_self, with_thread_other, tally, tally-le, tally-at, tally-with_thread,
  as_one,
}
use immix_rust.Common.Address.{ObjectReference, usize_mod}
use immix_rust.Crossbeam.{Injector}
use immix_rust.Crossbeam.Batch.{BatchInjector}
use immix_rust.Immix.Block.{ImmixBlock}
use immix_rust.Immix.Mutator.{ImmixMutatorLocal}
use immix_rust.Gc.Barrier.{Stage, still_blocked, Process, Threads, Act}
use immix_rust.Gc.Barrier.Stages.{is_parked, is_alone, is_registered, is_woken}
use immix_rust.Gc.Barrier.Acts.Control.{Act-mover, Act-registered, Act-parked}
use immix_rust.Gc.Barrier.Meeting.{Meeting}

pub clash : {b : Bool} → b ≡ false → b ≡ true → ⊥
clash f t = cc

-- The thread `i` has made an access.
pub record Acted (I : Injector ImmixBlock) (J : BatchInjector ObjectReference) (cpus slots : ℕ)
    (t : Threads I J cpus) (i : ℕ) (m : Process I J cpus) (l : ImmixMutatorLocal)
    (st : List ObjectReference) (p : Stage) : Type 0 where
  pub few : slots + 1 < usize_mod
  pub v : Meeting I J cpus slots t
  pub below : i < slots
  pub a : Act I J cpus i t.process (t.locals i) (t.stacks i) (t.stages i) m l st p

module _ {I : Injector ImmixBlock} {J : BatchInjector ObjectReference} {cpus slots : ℕ}
    {t : Threads I J cpus} {i : ℕ} {m : Process I J cpus} {l : ImmixMutatorLocal}
    {st : List ObjectReference} {p : Stage} (g : Acted I J cpus slots t i m l st p) where
  open g use {few, v, below, a}

  abbrev next : ℕ → Stage
  next = with_thread i p t.stages

  pub stage_self : next i ≡ p
  stage_self = with_thread_self i p t.stages

  pub stage_other : (j : ℕ) → i ≢ j → next j ≡ t.stages j
  stage_other j other = with_thread_other i p t.stages j other

  -- A property of the stage of one thread, from that of the acting one and of the others.
  pub by_cases :
      (P : ℕ → Stage → Type 0)
      → P i p
      → ((j : ℕ) → i ≢ j → P j (t.stages j))
      → (j : ℕ) → P j (next j)
  by_cases P here others j = elim (ℕ_discrete i j) [
    | yes same ↦ subst (λ k. P k (next k)) same (subst (P i) (sym stage_self) here)
    | no other ↦ subst (P j) (sym (stage_other j other)) (others j other)
  ]

  pub mover : (is_parked (t.stages i) ≡ false) × (is_registered (t.stages i) ≡ true)
  mover = Act-mover I J cpus a

  pub id : (t.locals i).id ≡ i
  id = v.ids i below mover.1

  pub flag : is_woken (t.stages i) ≡ true → still_blocked (t.locals i).id t.process.mutators ≡ false
  flag h = ap (λ k. still_blocked k t.process.mutators) id ∙ v.woken i below h

  -- While a thread is alone, no other acts.
  pub nobody_alone : (k : ℕ) → k < slots → i ≢ k → is_alone (t.stages k) ≡ true → ⊥
  nobody_alone k kb other h = clash mover.0 (v.alone k kb h i below (λ e. other (sym e)) mover.1)

  pub small : (t.process.n_mutators ≤ slots) × (t.process.stw_count ≤ slots)
  small = (
    omega (arith, v.registered, tally-le is_registered slots t.stages),
    omega (arith, v.parked_count, tally-le is_parked slots t.stages),
  )

  pub some_mutator : 1 ≤ t.process.n_mutators
  some_mutator =
      let part = tally-at is_registered slots i t.stages below in
      let one = ap as_one mover.1 in omega (arith, v.registered)

  pub registered_next : m.n_mutators ≡ tally is_registered slots next
  registered_next =
      let change = Act-registered I J cpus a some_mutator (omega (arith, small)) in
      let counted = tally-with_thread is_registered slots i p t.stages below in
      omega (arith, v.registered)

  pub parked_count_next : m.stw_count ≡ tally is_parked slots next
  parked_count_next =
      let change = Act-parked I J cpus a flag (omega (arith, small)) in
      let counted = tally-with_thread is_parked slots i p t.stages below in
      omega (arith, v.parked_count)
