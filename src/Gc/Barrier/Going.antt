-- ===== src/Gc/Barrier/Going.antt =====
-- src/heap/gc/mod.rs: an access of a thread keeps what holds at every moment of `sync_barrier`.
pub mod Actor
pub mod Control
use Prim.Native.Nat.{ℕ, ◌+◌, ◌≤◌, ◌<◌}
use mathlib.Core.Path.{◌≡◌, refl, sym, ap, subst, ◌∙◌}
use mathlib.Core.Logic.{◌≢◌, ◌⊎◌, inl, inr}
use mathlib.Core.Bool.{Bool, true, false}
use mathlib.Core.List.{List}
use mathlib.Core.Option.{none, some}
use native.Mathlib.Omega.{arith}
use native.Mathlib.Decide.{ℕ_discrete}
use immix_rust.Prelude.{Bool-cases}
use immix_rust.Prelude.Families.{
  with_thread, with_thread_self, with_thread_other, tally, tally-le, tally-at, tally-with_thread,
  tally_two_more, as_one,
}
use immix_rust.Prelude.Members.{Has, Has-cast, Has-append}
use immix_rust.Common.Address.{ObjectReference, usize_mod, wrapping_sub}
use immix_rust.Crossbeam.{Injector}
use immix_rust.Crossbeam.Batch.{BatchInjector}
use immix_rust.Immix.Block.{ImmixBlock}
use immix_rust.Immix.Mutator.{ImmixMutatorLocal}
use immix_rust.Gc.Barrier.{Stage, counting, reading, running, still_blocked, Process, Threads, Act}
use immix_rust.Gc.Barrier.Stages.{
  in_control, is_late, in_charge, is_parked, is_waiting, is_alone, is_registered, is_emptied,
  is_scanned, is_drained, is_woken, is_resetting, is_clashed, SawOther, Seen,
}
use immix_rust.Gc.Barrier.Acts.Control.{
  Act-mover, Act-controller, Act-registered, Act-parked, Act-count-le, Act-alone, Act-charge,
  Act-waiting, Act-late,
}
use immix_rust.Gc.Barrier.Acts.Locals.{
  Act-emptied, Act-roots, Act-scanned, Act-drained, Act-SawOther, Act-Seen, Act-id,
  Act-still_blocked, Act-cleared, Act-not_woken, Act-clashed,
}
use immix_rust.Gc.Barrier.Meeting.{Drained, Meeting}
use immix_rust.Gc.Barrier.Going.Actor.{
  clash, Acted, stage_self, stage_other, by_cases, mover, id, flag, nobody_alone, registered_next,
  parked_count_next, small, some_mutator,
}
use immix_rust.Gc.Barrier.Going.Control.{control_of_next, control_at_next, late_next, charge_next}

parked_registered : (s : Stage) → is_parked s ≡ true → is_registered s ≡ true
parked_registered s h = ground arith

resetting_alone : (s : Stage) → is_resetting s ≡ true → is_alone s ≡ true
resetting_alone s h = ground arith

Seen-mono : {c c' : ℕ} (s : Stage) → c ≤ c' → Seen c s → Seen c' s
Seen-mono (counting count) le h = omega arith
Seen-mono (reading count) le h = omega arith
Seen-mono s le h = tt

module _ {I : Injector ImmixBlock} {J : BatchInjector ObjectReference} {cpus slots : ℕ}
    {t : Threads I J cpus} {i : ℕ} {m : Process I J cpus} {l : ImmixMutatorLocal}
    {st : List ObjectReference} {p : Stage} (g : Acted I J cpus slots t i m l st p) where
  open g use {few, v, below, a}

  abbrev next : ℕ → Stage
  next = with_thread i p t.stages

  emptied_next :
      (j : ℕ) → j < slots → is_emptied (next j) ≡ true → (with_thread i l t.locals j).block ≡ none
  emptied_next j jb h = elim (ℕ_discrete i j) [
    | yes same ↦
        subst (λ k. (with_thread i l t.locals k).block ≡ none) same
          (ap (λ (w : ImmixMutatorLocal). w.block) (with_thread_self i l t.locals)
            ∙ Act-emptied I J cpus a (v.emptied i below)
                (ap is_emptied (sym (stage_self g) ∙ ap next same) ∙ h))
    | no other ↦
        ap (λ (w : ImmixMutatorLocal). w.block) (with_thread_other i l t.locals j other)
        ∙ v.emptied j jb (ap is_emptied (sym ((stage_other g) j other)) ∙ h)
  ]

  alone_here :
      i < slots
      → is_alone p ≡ true
      → (j : ℕ) → j < slots
      → i ≢ j
      → is_registered (t.stages j) ≡ true
      → is_parked (t.stages j) ≡ true
  alone_here ib h j jb other r = elim (Act-alone I J cpus a h) [
    | inl was ↦ v.alone i ib was j jb other r
    | inr (count, at, enough_seen, same) ↦ elim (Bool-cases (is_parked (t.stages j))) [
      | inl there ↦ there
      | inr elsewhere ↦
          let read : count ≤ t.process.stw_count =
            subst (Seen t.process.stw_count) at (v.seen i ib) in
          let gap =
            tally_two_more is_parked is_registered parked_registered slots i j t.stages other ib
              ((mover g).1) ((mover g).0) jb r elsewhere in
          absurd
            (enough_seen (omega (arith, v.registered, v.parked_count, some_mutator g, small g)))
    ]
  ]

  alone_next :
      (k : ℕ)
      → k < slots
      → is_alone (next k) ≡ true
      → (j : ℕ) → j < slots
      → k ≢ j
      → is_registered (next j) ≡ true
      → is_parked (next j) ≡ true
  alone_next =
      by_cases g
        (λ k s.
          k < slots
          → is_alone s ≡ true
          → (j : ℕ) → j < slots
          → k ≢ j
          → is_registered (next j) ≡ true
          → is_parked (next j) ≡ true)
        (λ ib h j jb other r.
          ap is_parked (stage_other g j other)
          ∙ alone_here ib h j jb other (ap is_registered (sym (stage_other g j other)) ∙ r))
        (λ k other kb h. absurd (nobody_alone g k kb other h))

  Drained-next : Drained slots t.stages → Drained slots next
  Drained-next (k, kb, h) = (
    k,
    kb,
    by_cases g (λ k s. is_drained (t.stages k) ≡ true → is_drained s ≡ true)
        (Act-drained I J cpus a) (λ k other h. h) k h,
  )

  abbrev Roots : (ℕ → Stage) → List ObjectReference → List ObjectReference → Type 0
  Roots stages stack roots =
      Drained slots stages ⊎ ((o : ObjectReference) → Has o stack → Has o roots)

  -- The roots that a thread has added are still there, if nobody has run the collection.
  roots_kept :
      (stack : List ObjectReference)
      → Roots t.stages stack t.process.roots
      → Roots next stack m.roots
  roots_kept stack (inl d) = inl (Drained-next d)
  roots_kept stack (inr f) = elim (Bool-cases (is_drained p)) [
    | inl d ↦ inl (i, below, ap is_drained (stage_self g) ∙ d)
    | inr not_drained ↦ inr (λ o h. elim (Act-roots I J cpus a o (f o h)) [
      | inl there ↦ there
      | inr d ↦ absurd (clash not_drained d)
    ])
  ]

  scanned_here : is_scanned p ≡ true → Roots next st m.roots
  scanned_here h = elim (Act-scanned I J cpus a (flag g) h) [
    | inl (added, same) ↦ inr (λ o ho.
        Has-cast o (sym added)
          (Has-append o t.process.roots (t.stacks i) (inr (Has-cast o same ho))))
    | inr (was, roots, same) ↦
        subst (λ w. Roots next w m.roots) (sym same)
          (roots_kept (t.stacks i) (v.scanned i below was))
  ]

  scanned_next :
      (j : ℕ)
      → j < slots
      → is_scanned (next j) ≡ true
      → Roots next (with_thread i st t.stacks j) m.roots
  scanned_next j jb h = elim (ℕ_discrete i j) [
    | yes same ↦
        subst (λ k. Roots next (with_thread i st t.stacks k) m.roots) same
          (subst (λ w. Roots next w m.roots) (sym (with_thread_self i st t.stacks))
            (scanned_here (ap is_scanned (sym (stage_self g) ∙ ap next same) ∙ h)))
    | no other ↦
        subst (λ w. Roots next w m.roots) (sym (with_thread_other i st t.stacks j other))
          (roots_kept (t.stacks j)
            (v.scanned j jb (ap is_scanned (sym (stage_other g j other)) ∙ h)))
  ]

  saw_next : (j : ℕ) → j < slots → SawOther j (next j)
  saw_next =
      by_cases g (λ j s. j < slots → SawOther j s)
        (λ ib. Act-SawOther I J cpus a (λ e. (v.control_at i e).1) (v.saw i ib))
        (λ j other jb. v.saw j jb)

  Seen-next : (j : ℕ) → j < slots → Seen m.stw_count (next j)
  Seen-next =
      by_cases g (λ j s. j < slots → Seen m.stw_count s) (λ ib. Act-Seen I J cpus a (v.seen i ib))
        (λ j other jb.
          Seen-mono (t.stages j) (Act-count-le I J cpus a (omega (arith, small g))) (v.seen j jb))

  ids_next :
      (j : ℕ) → j < slots → is_registered (next j) ≡ true → (with_thread i l t.locals j).id ≡ j
  ids_next j jb h = elim (ℕ_discrete i j) [
    | yes same ↦
        subst (λ k. (with_thread i l t.locals k).id ≡ k) same
          (ap (λ (w : ImmixMutatorLocal). w.id) (with_thread_self i l t.locals)
            ∙ Act-id I J cpus a
            ∙ id g)
    | no other ↦
        ap (λ (w : ImmixMutatorLocal). w.id) (with_thread_other i l t.locals j other)
        ∙ v.ids j jb (ap is_registered (sym (stage_other g j other)) ∙ h)
  ]

  woken_next : (j : ℕ) → j < slots → is_woken (next j) ≡ true → still_blocked j m.mutators ≡ false
  woken_next =
      by_cases g (λ j s. j < slots → is_woken s ≡ true → still_blocked j m.mutators ≡ false)
        (λ ib h. absurd (clash (Act-not_woken I J cpus a) h))
        (λ j other jb h.
          Act-still_blocked I J cpus a j (λ e. other (sym (id g) ∙ e)) (v.woken j jb h))

  cleared_next :
      (k : ℕ)
      → k < slots
      → is_resetting (next k) ≡ true
      → (j : ℕ) → still_blocked j m.mutators ≡ false
  cleared_next =
      by_cases g
        (λ k s. k < slots → is_resetting s ≡ true → (j : ℕ) → still_blocked j m.mutators ≡ false)
        (λ ib h. Act-cleared I J cpus a h)
        (λ k other kb h. absurd (nobody_alone g k kb other (resetting_alone (t.stages k) h)))

  unclashed_next : (j : ℕ) → j < slots → is_clashed (next j) ≡ false
  unclashed_next =
      by_cases g (λ j s. j < slots → is_clashed s ≡ false)
        (λ ib. Act-clashed I J cpus a (v.saw i ib)) (λ j other jb. v.unclashed j jb)

  pub Meeting-next : Meeting I J cpus slots (record {
    process = m;
    stages = next;
    locals = with_thread i l t.locals;
    stacks = with_thread i st t.stacks;
  })
  Meeting-next = record {
    control_of = control_of_next g;
    control_at = control_at_next g;
    registered = registered_next g;
    parked_count = parked_count_next g;
    alone = alone_next;
    late = late_next g;
    charge = charge_next g;
    emptied = emptied_next;
    scanned = scanned_next;
    saw = saw_next;
    seen = Seen-next;
    ids = ids_next;
    woken = woken_next;
    cleared = cleared_next;
    unclashed = unclashed_next;
  }
