-- ===== src/Gc/Barrier/Safety.antt =====
-- src/heap/gc/mod.rs: what `sync_barrier` guarantees.
use Prim.Native.Nat.{ℕ, ◌+◌, ◌<◌}
use mathlib.Core.Path.{◌≡◌, refl, sym, ap, ◌∙◌}
use mathlib.Core.Logic.{◌⊎◌, inl, inr}
use mathlib.Core.Bool.{Bool, true, false}
use mathlib.Core.Option.{none, some}
use native.Mathlib.Omega.{arith}
use native.Mathlib.Decide.{ℕ_discrete}
use immix_rust.Prelude.Families.{tally, tally-zero}
use immix_rust.Prelude.Members.{Has}
use immix_rust.Common.Address.{ObjectReference, usize_mod}
use immix_rust.Crossbeam.{Injector}
use immix_rust.Crossbeam.Batch.{BatchInjector}
use immix_rust.Immix.Block.{ImmixBlock}
use immix_rust.Gc.Barrier.{
  Stage, absent, collecting, parked, Threads, by, resume, History, begin, turn, join,
}
use immix_rust.Gc.Barrier.Stages.{
  in_control, is_late, in_charge, is_parked, is_alone, is_registered, is_drained, is_clashed,
  is_emptied, is_scanned,
}
use immix_rust.Gc.Barrier.Meeting.{Drained, Meeting}
use immix_rust.Gc.Barrier.Going.{Meeting-next}
use immix_rust.Gc.Barrier.Resuming.{Meeting-resume}
use immix_rust.Gc.Barrier.Joining.{Idle, Meeting-join}

clash : {b : Bool} → b ≡ false → b ≡ true → ⊥
clash f t = cc

some_inj : {j k : ℕ} → some j ≡ some k → j ≡ k
some_inj e = cc

no_some : {k : ℕ} → none ≡ some k → ⊥
no_some e = cc

parked_registered : (s : Stage) → is_parked s ≡ true → is_registered s ≡ true
parked_registered s h = ground arith

parked_eq : (s : Stage) → is_parked s ≡ true → s ≡ parked
parked_eq s h = ground arith

late_or_control : (s : Stage) → in_charge s ≡ true → (is_late s ≡ true) ⊎ (in_control s ≡ true)
late_or_control s h = ground arith

late_alone : (s : Stage) → is_late s ≡ true → is_alone s ≡ true
late_alone s h = ground arith

charge_not_parked : (s : Stage) → in_charge s ≡ true → is_parked s ≡ true → ⊥
charge_not_parked s c h = ground arith

charge_registered : (s : Stage) → in_charge s ≡ true → is_registered s ≡ true
charge_registered s c = ground arith

drained_busy : (s : Stage) → is_drained s ≡ true → (is_alone s ≡ true) ⊎ (in_control s ≡ true)
drained_busy s h = ground arith

module _ (I : Injector ImmixBlock) (J : BatchInjector ObjectReference) (cpus slots : ℕ)
    (few : slots + 1 < usize_mod) where
  -- Mutators register only while no collection is under way.
  abbrev pub Orderly : Threads I J cpus → Type 0
  Orderly = History I J cpus slots (λ t. Idle slots t.stages)

  pub Orderly-Meeting : {t : Threads I J cpus} → Orderly t → Meeting I J cpus slots t
  Orderly-Meeting (begin space locals stacks) = record {
    control_of = λ j jb h. absurd (clash refl h);
    control_at = λ j e. absurd (no_some e);
    registered = sym (tally-zero is_registered slots (λ _. absent) (λ j. refl));
    parked_count = sym (tally-zero is_parked slots (λ _. absent) (λ j. refl));
    alone = λ k kb h. absurd (clash refl h);
    late = λ k kb h. refl;
    charge = λ j jb h. absurd (clash refl h);
    emptied = λ j jb h. absurd (clash refl h);
    scanned = λ j jb h. absurd (clash refl h);
    saw = λ j jb. tt;
    seen = λ j jb. tt;
    ids = λ j jb h. absurd (clash refl h);
    woken = λ j jb h. absurd (clash refl h);
    cleared = λ j jb h. absurd (clash refl h);
    unclashed = λ j jb. refl;
  }
  Orderly-Meeting (turn h (by i below a)) =
      Meeting-next (record { few = few; v = Orderly-Meeting h; below = below; a = a })
  Orderly-Meeting (turn h (resume i below at)) = Meeting-resume (Orderly-Meeting h) i below at
  Orderly-Meeting (join i stack h below at idle) =
      Meeting-join few (Orderly-Meeting h) i below at idle stack

  module _ {t : Threads I J cpus} (h : Orderly t) where
    -- The world is stopped: if mutators register only while no collection is under way, then when a
    -- thread begins a collection, every other registered thread is parked, every registered mutator
    -- has given its block back, and the roots contain what the stack scans of all of them have found.
    pub collecting-stopped :
        (i : ℕ)
        → i < slots
        → t.stages i ≡ collecting
        → (j : ℕ) → j < slots
        → is_registered (t.stages j) ≡ true
        → ((i ≡ j) ⊎ (t.stages j ≡ parked))
          × ((t.locals j).block ≡ none)
          × ((o : ObjectReference) → Has o (t.stacks j) → Has o t.process.roots)
    collecting-stopped i ib at j jb r = (who, emptied (who), rooted (who))
      where
        v : Meeting I J cpus slots t
        v = Orderly-Meeting h

        who : (i ≡ j) ⊎ (t.stages j ≡ parked)
        who = elim (ℕ_discrete i j) [
          | yes same ↦ inl same
          | no other ↦ inr (parked_eq (t.stages j) (v.alone i ib (ap is_alone at) j jb other r))
        ]

        emptied : (i ≡ j) ⊎ (t.stages j ≡ parked) → (t.locals j).block ≡ none
        emptied (inl same) = v.emptied j jb (ap is_emptied (ap t.stages (sym same) ∙ at))
        emptied (inr there) = v.emptied j jb (ap is_emptied there)

        undrained : Drained slots t.stages → ⊥
        undrained (k, kb, d) = elim (ℕ_discrete i k) [
          | yes same ↦ clash (ap is_drained (ap t.stages (sym same) ∙ at)) d
          | no other ↦ elim (drained_busy (t.stages k) d) [
            | inl alone ↦
                clash (ap is_parked at)
                  (v.alone k kb alone i ib (λ e. other (sym e)) (ap is_registered at))
            | inr held ↦
                other
                  (some_inj (sym (v.control_of i ib (ap in_control at)) ∙ v.control_of k kb held))
          ]
        ]

        roots_of :
            is_scanned (t.stages j) ≡ true
            → (o : ObjectReference) → Has o (t.stacks j)
            → Has o t.process.roots
        roots_of s = elim (v.scanned j jb s) [ inl d ↦ absurd (undrained d) | inr f ↦ f ]

        rooted :
            (i ≡ j) ⊎ (t.stages j ≡ parked)
            → (o : ObjectReference) → Has o (t.stacks j)
            → Has o t.process.roots
        rooted (inl same) = roots_of (ap is_scanned (ap t.stages (sym same) ∙ at))
        rooted (inr there) = roots_of (ap is_scanned there)

    late_unique :
        (i j : ℕ)
        → i < slots
        → j < slots
        → is_late (t.stages i) ≡ true
        → in_charge (t.stages j) ≡ true
        → i ≡ j
    late_unique i j ib jb late c = elim (ℕ_discrete i j) [
      | yes same ↦ same
      | no other ↦ absurd (
          charge_not_parked (t.stages j) c (
            (Orderly-Meeting h).alone i ib (late_alone (t.stages i) late) j jb other
              (charge_registered (t.stages j) c)))
    ]

    -- If mutators register only while no collection is under way, at most one thread is in charge of
    -- a collection, from its `compare_exchange` until it has notified the others.
    pub in_charge_unique :
        (i j : ℕ)
        → i < slots
        → j < slots
        → in_charge (t.stages i) ≡ true
        → in_charge (t.stages j) ≡ true
        → i ≡ j
    in_charge_unique i j ib jb c d = elim (late_or_control (t.stages i) c) [
      | inl late ↦ late_unique i j ib jb late d
      | inr held ↦ elim (late_or_control (t.stages j) d) [
        | inl late ↦ sym (late_unique j i jb ib late c)
        | inr held' ↦
            let v = Orderly-Meeting h in
            some_inj (sym (v.control_of i ib held) ∙ v.control_of j jb held')
      ]
    ]

    -- If mutators register only while no collection is under way, the two counts that the controller
    -- compares are right at every moment: N_MUTATORS is the number of registered mutators, and the
    -- number under the lock that of the threads that wait in `block_current_thread`.
    pub n_mutators-tally :
        (t.process.n_mutators ≡ tally is_registered slots t.stages)
        × (t.process.stw_count ≡ tally is_parked slots t.stages)
    n_mutators-tally = ((Orderly-Meeting h).registered, (Orderly-Meeting h).parked_count)

    -- If mutators register only while no collection is under way, the assertion of `sync_barrier`
    -- never fails: a thread never sees itself as the controller.
    pub never_clashed : (j : ℕ) → j < slots → is_clashed (t.stages j) ≡ false
    never_clashed = (Orderly-Meeting h).unclashed
