-- ===== src/Gc/Barrier/Progress.antt =====
-- src/heap/gc/mod.rs: no wake-up is lost in `sync_barrier`, and a controller comes to its
-- collection.
use Prim.Native.Nat.{ℕ, ◌+◌, ◌<◌}
use mathlib.Core.Path.{◌≡◌, refl, sym, ap, subst, ◌∙◌}
use mathlib.Core.Logic.{◌≢◌}
use mathlib.Core.Bool.{Bool, true, false}
use mathlib.Core.List.{List}
use native.Mathlib.Omega.{arith}
use native.Mathlib.Decide.{dec_lt}
use immix_rust.Prelude.Families.{
  with_thread, with_thread_self, tally-le, tally-at, as_one, tally_at_most_one_more,
}
use immix_rust.Common.Address.{ObjectReference, usize_mod, wrapping_sub}
use immix_rust.Crossbeam.{Injector}
use immix_rust.Crossbeam.Batch.{BatchInjector}
use immix_rust.Immix.Block.{ImmixBlock}
use immix_rust.Immix.Mutator.{ImmixMutatorLocal}
use immix_rust.Gc.Barrier.{
  Stage, collecting, reading, parked, running, woken, counting, Process, Threads, Act, Turns, stay,
  go, more, read, enough, Turn, by, unblock, still_blocked,
}
use immix_rust.Gc.Barrier.Stages.{is_parked, is_waiting, is_registered, is_woken}
use immix_rust.Gc.Barrier.Safety.{Orderly, Orderly-Meeting}
use immix_rust.Gc.Barrier.Joining.{Idle}

clash : {b : Bool} → b ≡ false → b ≡ true → ⊥
clash f t = cc

not_true : {b : Bool} → (b ≡ true → ⊥) → b ≡ false
not_true {b = true} h = absurd (h refl)
not_true {b = false} h = refl

parked_registered : (s : Stage) → is_parked s ≡ true → is_registered s ≡ true
parked_registered s h = ground arith

module _ (I : Injector ImmixBlock) (J : BatchInjector ObjectReference) (cpus slots : ℕ)
    (few : slots + 1 < usize_mod) where
  act_at :
      {t : Threads I J cpus} (i : ℕ) {m : Process I J cpus} {l : ImmixMutatorLocal}
      {st : List ObjectReference} {p q : Stage}
      → i < slots
      → t.stages i ≡ p
      → Act I J cpus i t.process (t.locals i) (t.stacks i) p m l st q
      → Turn I J cpus slots t (record {
        process = m;
        stages = with_thread i q t.stages;
        locals = with_thread i l t.locals;
        stacks = with_thread i st t.stacks;
      })
  act_at {t} i {m} {l} {st} {p} {q} ib at a =
      by i ib
        (subst (λ s. Act I J cpus i t.process (t.locals i) (t.stacks i) s m l st q) (sym at) a)

  module _ {t : Threads I J cpus} (h : Orderly I J cpus slots few t) where
    all_parked :
        (i : ℕ)
        → i < slots
        → is_registered (t.stages i) ≡ true
        → ((j : ℕ) → j < slots → i ≢ j → is_registered (t.stages j) ≡ true → t.stages j ≡ parked)
        → ¬ (t.process.stw_count < wrapping_sub t.process.n_mutators 1)
    all_parked i ib r others fewer =
        let gap =
          tally_at_most_one_more is_parked is_registered parked_registered slots i t.stages
            (λ j jb other s. ap is_parked (others j jb other s)) in
        let v = Orderly-Meeting I J cpus slots few h in
        let part = tally-at is_registered slots i t.stages ib in
        let one = ap as_one r in
        let most = tally-le is_registered slots t.stages in
        omega (arith, v.registered, v.parked_count)

    -- No wake-up is lost, if mutators register only while no collection is under way: while nobody is
    -- in charge of a collection nobody waits for one, and a thread that was notified can go on at
    -- once.
    pub Idle-nobody_waits :
        Idle slots t.stages
        → (j : ℕ) → j < slots
        → (is_waiting (t.stages j) ≡ false)
          × (t.stages j ≡ woken
              → (u : Threads I J cpus) × Turn I J cpus slots t u × (u.stages j ≡ running))
    Idle-nobody_waits idle j jb = (
      not_true (λ w.
          let (k, kb, c) = (Orderly-Meeting I J cpus slots few h).charge j jb w in
          clash (idle k kb) c),
      λ at. (
        _,
        act_at j jb at (
            unblock (
              ap (λ k. still_blocked k t.process.mutators)
                ((Orderly-Meeting I J cpus slots few h).ids j jb (ap is_registered at))
              ∙ (Orderly-Meeting I J cpus slots few h).woken j jb (ap is_woken at))),
        with_thread_self j running t.stages,
      ),
    )

    -- A controller comes to its collection: if mutators register only while no collection is under
    -- way, and all other registered threads are parked, then whatever the controller has read of the
    -- count, it can begin the collection by accesses of its own.
    pub counting-collects :
        (i count : ℕ)
        → i < slots
        → t.stages i ≡ counting count
        → ((j : ℕ) → j < slots → i ≢ j → is_registered (t.stages j) ≡ true → t.stages j ≡ parked)
        → (u : Threads I J cpus) × Turns I J cpus slots t u × (u.stages i ≡ collecting)
    counting-collects i count ib at others =
        let n = wrapping_sub t.process.n_mutators 1 in
        elim (dec_lt count n) [
          | no enough_seen ↦ (
            _,
            go stay (act_at i ib at (enough enough_seen)),
            with_thread_self i collecting t.stages,
          )
          | yes fewer ↦
              let t1 = act_at i ib at (more fewer) in
              let t2 = act_at i ib (with_thread_self i (reading count) t.stages) read in
              let t3 =
                act_at i ib
                  (with_thread_self i (counting t.process.stw_count)
                    (with_thread i (reading count) t.stages))
                  (enough (all_parked i ib (ap is_registered at) others)) in
              (
                _,
                go (go (go stay t1) t2) t3,
                with_thread_self i collecting (
                    with_thread i (counting t.process.stw_count)
                      (with_thread i (reading count) t.stages)),
              )
        ]
