-- ===== src/Gc/Barrier/Resuming.antt =====
-- src/heap/gc/mod.rs: the end of a collection keeps what holds at every moment of `sync_barrier`.
use Prim.Native.Nat.{ℕ, ◌<◌}
use mathlib.Core.Path.{◌≡◌, refl, sym, ap, subst, ◌∙◌}
use mathlib.Core.Logic.{◌≢◌, inl, inr}
use mathlib.Core.Bool.{Bool, true, false}
use mathlib.Core.Option.{none, some}
use native.Mathlib.Omega.{arith}
use native.Mathlib.Decide.{ℕ_discrete}
use immix_rust.Prelude.{Bool-cases}
use immix_rust.Prelude.Families.{
  with_thread, with_thread_self, with_thread_other, tally-zero, tally-cong,
}
use immix_rust.Common.Address.{ObjectReference}
use immix_rust.Crossbeam.{Injector}
use immix_rust.Crossbeam.Batch.{BatchInjector}
use immix_rust.Immix.Block.{ImmixBlock}
use immix_rust.Immix.Mutator.{ImmixMutatorLocal, reset}
use immix_rust.Gc.Barrier.{Stage, absent, running, woken, resetting, wake, Threads}
use immix_rust.Gc.Barrier.Stages.{
  in_control, is_late, is_parked, is_waiting, is_alone, is_registered, is_emptied, is_scanned,
  is_resetting, is_clashed, SawOther, Seen,
}
use immix_rust.Gc.Barrier.Meeting.{Meeting}

clash : {b : Bool} → b ≡ false → b ≡ true → ⊥
clash f t = cc

-- The stages that are left when a collection ends.
abbrev is_settled : Stage → Bool
is_settled absent = true
is_settled running = true
is_settled woken = true
is_settled _ = false

-- What is not the case of such a stage.
record Settled (s : Stage) : Type 0 where
  control : in_control s ≡ false
  late : is_late s ≡ false
  waiting : is_waiting s ≡ false
  alone : is_alone s ≡ false
  scanned : is_scanned s ≡ false
  resetting : is_resetting s ≡ false
  clashed : is_clashed s ≡ false
  saw : (i : ℕ) → SawOther i s
  seen : (c : ℕ) → Seen c s

settled_lem : (s : Stage) → is_settled s ≡ true → Settled s
settled_lem absent h = record {
  control = refl;
  late = refl;
  waiting = refl;
  alone = refl;
  scanned = refl;
  resetting = refl;
  clashed = refl;
  saw = λ i. tt;
  seen = λ c. tt;
}
settled_lem running h = record {
  control = refl;
  late = refl;
  waiting = refl;
  alone = refl;
  scanned = refl;
  resetting = refl;
  clashed = refl;
  saw = λ i. tt;
  seen = λ c. tt;
}
settled_lem woken h = record {
  control = refl;
  late = refl;
  waiting = refl;
  alone = refl;
  scanned = refl;
  resetting = refl;
  clashed = refl;
  saw = λ i. tt;
  seen = λ c. tt;
}
settled_lem s h = cc

wake_parked : (s : Stage) → is_parked s ≡ true → is_settled (wake s) ≡ true
wake_parked s h = ground arith

wake_absent : (s : Stage) → is_registered s ≡ false → is_settled (wake s) ≡ true
wake_absent s h = ground arith

wake_registered : (s : Stage) → is_registered (wake s) ≡ is_registered s
wake_registered s = ground arith

wake_not_parked : (s : Stage) → is_parked (wake s) ≡ false
wake_not_parked s = ground arith

wake_emptied : (s : Stage) → is_emptied (wake s) ≡ is_emptied s
wake_emptied s = ground arith

reset-id : (l : ImmixMutatorLocal) → (reset l).id ≡ l.id
unfolding reset
reset-id l = refl

module _ {I : Injector ImmixBlock} {J : BatchInjector ObjectReference} {cpus slots : ℕ}
    {t : Threads I J cpus} (v : Meeting I J cpus slots t) (i : ℕ) (below : i < slots)
    (at : t.stages i ≡ resetting) where
  abbrev next : ℕ → Stage
  next j = wake (with_thread i running t.stages j)

  next_self : next i ≡ running
  next_self = ap wake (with_thread_self i running t.stages)

  next_other : (j : ℕ) → i ≢ j → next j ≡ wake (t.stages j)
  next_other j other = ap wake (with_thread_other i running t.stages j other)

  settled_other : (j : ℕ) → j < slots → i ≢ j → is_settled (wake (t.stages j)) ≡ true
  settled_other j jb other = elim (Bool-cases (is_registered (t.stages j))) [
    | inl r ↦ wake_parked (t.stages j) (v.alone i below (ap is_alone at) j jb other r)
    | inr r ↦ wake_absent (t.stages j) r
  ]

  settled : (j : ℕ) → j < slots → Settled (next j)
  settled j jb = settled_lem (next j) (elim (ℕ_discrete i j) [
    | yes same ↦ ap is_settled (ap next (sym same) ∙ next_self)
    | no other ↦ ap is_settled (next_other j other) ∙ settled_other j jb other
  ])

  free : t.process.controller ≡ none
  free = v.late i below (ap is_late at)

  registered_next : (j : ℕ) → is_registered (next j) ≡ is_registered (t.stages j)
  registered_next j = elim (ℕ_discrete i j) [
    | yes same ↦
        ap is_registered (ap next (sym same) ∙ next_self)
        ∙ sym (ap is_registered (ap t.stages (sym same) ∙ at))
    | no other ↦ ap is_registered (next_other j other) ∙ wake_registered (t.stages j)
  ]

  emptied_next :
      (j : ℕ)
      → j < slots
      → is_emptied (next j) ≡ true
      → (with_thread i (reset (t.locals i)) t.locals j).block ≡ none
  emptied_next j jb h = elim (ℕ_discrete i j) [
    | yes same ↦ absurd (clash (ap is_emptied (ap next (sym same) ∙ next_self)) h)
    | no other ↦
        ap (λ (w : ImmixMutatorLocal). w.block)
          (with_thread_other i (reset (t.locals i)) t.locals j other)
        ∙ v.emptied j jb
            (sym (wake_emptied (t.stages j)) ∙ ap is_emptied (sym (next_other j other)) ∙ h)
  ]

  ids_next :
      (j : ℕ)
      → j < slots
      → is_registered (next j) ≡ true
      → (with_thread i (reset (t.locals i)) t.locals j).id ≡ j
  ids_next j jb h =
      let old = v.ids j jb (sym (registered_next j) ∙ h) in
      elim (ℕ_discrete i j) [
        | yes same ↦
            subst (λ k. (with_thread i (reset (t.locals i)) t.locals k).id ≡ k) same
              (ap (λ (w : ImmixMutatorLocal). w.id)
                  (with_thread_self i (reset (t.locals i)) t.locals)
                ∙ reset-id (t.locals i)
                ∙ subst (λ k. (t.locals k).id ≡ k) (sym same) old)
        | no other ↦
            ap (λ (w : ImmixMutatorLocal). w.id)
              (with_thread_other i (reset (t.locals i)) t.locals j other)
            ∙ old
      ]

  pub Meeting-resume : Meeting I J cpus slots (record t {
    process = record t.process { stw_count = 0 };
    stages = next;
    locals = with_thread i (reset (t.locals i)) t.locals;
  })
  Meeting-resume = record {
    control_of = λ j jb h. absurd (clash (settled j jb).control h);
    control_at = λ j e. absurd (no_some (sym free ∙ e));
    registered = v.registered ∙ sym (tally-cong is_registered slots next t.stages registered_next);
    parked_count =
        sym (
          tally-zero is_parked slots next
            (λ j. wake_not_parked (with_thread i running t.stages j)));
    alone = λ k kb h. absurd (clash (settled k kb).alone h);
    late = λ k kb h. free;
    charge = λ j jb h. absurd (clash (settled j jb).waiting h);
    emptied = emptied_next;
    scanned = λ j jb h. absurd (clash (settled j jb).scanned h);
    saw = λ j jb. (settled j jb).saw j;
    seen = λ j jb. (settled j jb).seen 0;
    ids = ids_next;
    woken = λ j jb h. v.cleared i below (ap is_resetting at) j;
    cleared = λ k kb h. absurd (clash (settled k kb).resetting h);
    unclashed = λ j jb. (settled j jb).clashed;
  }
    where
      no_some : {k : ℕ} → none ≡ some k → ⊥
      no_some e = cc
