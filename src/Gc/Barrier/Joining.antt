-- ===== src/Gc/Barrier/Joining.antt =====
-- src/heap/gc/mod.rs: a mutator that registers while nobody is in charge of a collection keeps what
-- holds at every moment of `sync_barrier`.
use Prim.Native.Nat.{ℕ, ◌+◌, ◌<◌}
use mathlib.Core.Path.{◌≡◌, refl, sym, ap, subst, ◌∙◌}
use mathlib.Core.Logic.{◌≢◌, ◌⊎◌, inl, inr}
use mathlib.Core.Bool.{Bool, true, false}
use mathlib.Core.List.{List}
use mathlib.Core.Option.{none, some}
use native.Mathlib.Omega.{arith}
use native.Mathlib.Decide.{ℕ_discrete}
use immix_rust.Prelude.Families.{
  with_thread, with_thread_self, with_thread_other, as_one, tally, tally-le, tally-with_thread,
}
use immix_rust.Prelude.Members.{Has}
use immix_rust.Common.Address.{ObjectReference, usize_mod}
use immix_rust.Crossbeam.{Injector}
use immix_rust.Crossbeam.Batch.{BatchInjector}
use immix_rust.Immix.Block.{ImmixBlock}
use immix_rust.Immix.Mutator.{ImmixMutatorLocal, new}
use immix_rust.Gc.Barrier.{Stage, absent, running, still_blocked, Threads, registered_at}
use immix_rust.Gc.Barrier.Stages.{
  in_control, is_late, in_charge, is_parked, is_waiting, is_alone, is_registered, is_emptied,
  is_scanned, is_drained, is_woken, is_resetting, is_clashed, SawOther, Seen,
}
use immix_rust.Gc.Barrier.Flags.{still_blocked-append}
use immix_rust.Gc.Barrier.Meeting.{Drained, Meeting}

clash : {b : Bool} → b ≡ false → b ≡ true → ⊥
clash f t = cc

-- No collection is under way.
abbrev pub Idle : (slots : ℕ) → (ℕ → Stage) → Type 0
Idle slots stages = (j : ℕ) → j < slots → in_charge (stages j) ≡ false

control_charge : (s : Stage) → in_control s ≡ true → in_charge s ≡ true
control_charge s h = ground arith

alone_charge : (s : Stage) → is_alone s ≡ true → in_charge s ≡ true
alone_charge s h = ground arith

drained_charge : (s : Stage) → is_drained s ≡ true → in_charge s ≡ true
drained_charge s h = ground arith

resetting_charge : (s : Stage) → is_resetting s ≡ true → in_charge s ≡ true
resetting_charge s h = ground arith

late_charge : (s : Stage) → is_late s ≡ true → in_charge s ≡ true
late_charge s h = ground arith

module _ {I : Injector ImmixBlock} {J : BatchInjector ObjectReference} {cpus slots : ℕ}
    (few : slots + 1 < usize_mod) {t : Threads I J cpus} (v : Meeting I J cpus slots t) (i : ℕ)
    (below : i < slots) (at : t.stages i ≡ absent) (idle : Idle slots t.stages)
    (stack : List ObjectReference) where
  abbrev joined : Threads I J cpus
  joined = registered_at I J cpus i stack t

  abbrev next : ℕ → Stage
  next = with_thread i running t.stages

  by_cases :
      (P : ℕ → Stage → Type 0)
      → P i running
      → ((j : ℕ) → i ≢ j → P j (t.stages j))
      → (j : ℕ) → P j (next j)
  by_cases P here others j = elim (ℕ_discrete i j) [
    | yes same ↦
        subst (λ k. P k (next k)) same
          (subst (P i) (sym (with_thread_self i running t.stages)) here)
    | no other ↦ subst (P j) (sym (with_thread_other i running t.stages j other)) (others j other)
  ]

  nobody : {P : Type 0} → (k : ℕ) → k < slots → in_charge (t.stages k) ≡ true → P
  nobody k kb h = absurd (clash (idle k kb) h)

  joined-n : joined.process.n_mutators ≡ t.process.n_mutators + 1
  unfolding new
  joined-n = omega (arith, v.registered, tally-le is_registered slots t.stages)

  joined-registered : joined.process.n_mutators ≡ tally is_registered slots next
  joined-registered =
      let counted = tally-with_thread is_registered slots i running t.stages below in
      let was = ap (λ s. as_one (is_registered s)) at in omega (arith, v.registered, joined-n)

  joined-parked : t.process.stw_count ≡ tally is_parked slots next
  joined-parked =
      let counted = tally-with_thread is_parked slots i running t.stages below in
      let was = ap (λ s. as_one (is_parked s)) at in omega (arith, v.parked_count)

  joined-still_blocked :
      (j : ℕ) → i ≢ j → still_blocked j joined.process.mutators ≡ still_blocked j t.process.mutators
  unfolding new
  joined-still_blocked j other = still_blocked-append i j t.process.mutators other

  joined-id : (joined.locals i).id ≡ i
  unfolding new
  joined-id = ap (λ (w : ImmixMutatorLocal). w.id) (with_thread_self i _ t.locals)

  local_other : (j : ℕ) → i ≢ j → joined.locals j ≡ t.locals j
  local_other j other = with_thread_other i _ t.locals j other

  pub Meeting-join : Meeting I J cpus slots joined
  Meeting-join = record {
    control_of =
        by_cases (λ j s. j < slots → in_control s ≡ true → t.process.controller ≡ some j)
          (λ jb h. absurd (clash refl h)) (λ j other jb h. v.control_of j jb h);
    control_at =
        λ j e. let (jb, h) = v.control_at j e in nobody j jb (control_charge (t.stages j) h);
    registered = joined-registered;
    parked_count = joined-parked;
    alone =
        by_cases
          (λ k s.
            k < slots
            → is_alone s ≡ true
            → (j : ℕ) → j < slots
            → k ≢ j
            → is_registered (next j) ≡ true
            → is_parked (next j) ≡ true)
          (λ kb h. absurd (clash refl h))
          (λ k other kb h. nobody k kb (alone_charge (t.stages k) h));
    late =
        by_cases (λ j s. j < slots → is_late s ≡ true → t.process.controller ≡ none)
          (λ jb h. absurd (clash refl h)) (λ j other jb h. v.late j jb h);
    charge =
        by_cases
          (λ j s.
            j < slots → is_waiting s ≡ true → (k : ℕ) × (k < slots) × (in_charge (next k) ≡ true))
          (λ jb h. absurd (clash refl h))
          (λ j other jb h. let (k, kb, c) = v.charge j jb h in nobody k kb c);
    emptied =
        by_cases (λ j s. j < slots → is_emptied s ≡ true → (joined.locals j).block ≡ none)
          (λ jb h. absurd (clash refl h))
          (λ j other jb h.
            ap (λ (w : ImmixMutatorLocal). w.block) (local_other j other) ∙ v.emptied j jb h);
    scanned =
        by_cases
          (λ j s.
            j < slots
            → is_scanned s ≡ true
            → Drained slots next
              ⊎ ((o : ObjectReference) → Has o (joined.stacks j) → Has o t.process.roots))
          (λ jb h. absurd (clash refl h))
          (λ j other jb h. elim (v.scanned j jb h) [
            | inl (k, kb, d) ↦ nobody k kb (drained_charge (t.stages k) d)
            | inr f ↦ inr (
                subst (λ w. (o : ObjectReference) → Has o w → Has o t.process.roots)
                  (sym (with_thread_other i stack t.stacks j other)) f)
          ]);
    saw = by_cases (λ j s. j < slots → SawOther j s) (λ jb. tt) (λ j other jb. v.saw j jb);
    seen =
        by_cases (λ j s. j < slots → Seen t.process.stw_count s) (λ jb. tt)
          (λ j other jb. v.seen j jb);
    ids =
        by_cases (λ j s. j < slots → is_registered s ≡ true → (joined.locals j).id ≡ j)
          (λ jb h. joined-id)
          (λ j other jb h.
            ap (λ (w : ImmixMutatorLocal). w.id) (local_other j other) ∙ v.ids j jb h);
    woken =
        by_cases
          (λ j s. j < slots → is_woken s ≡ true → still_blocked j joined.process.mutators ≡ false)
          (λ jb h. absurd (clash refl h))
          (λ j other jb h. joined-still_blocked j other ∙ v.woken j jb h);
    cleared =
        by_cases
          (λ k s.
            k < slots
            → is_resetting s ≡ true
            → (j : ℕ) → still_blocked j joined.process.mutators ≡ false)
          (λ kb h. absurd (clash refl h))
          (λ k other kb h. nobody k kb (resetting_charge (t.stages k) h));
    unclashed =
        by_cases (λ j s. j < slots → is_clashed s ≡ false) (λ jb. refl)
          (λ j other jb. v.unclashed j jb);
  }
