-- ===== src/Gc/Barrier/Going/Control.antt =====
-- src/heap/gc/mod.rs: who is in control after an access of a thread.
use Prim.Native.Nat.{ℕ, ◌<◌}
use mathlib.Core.Path.{◌≡◌, sym, ap, subst, ◌∙◌}
use mathlib.Core.Logic.{◌≢◌, inl, inr}
use mathlib.Core.Bool.{true}
use mathlib.Core.List.{List}
use mathlib.Core.Option.{none, some}
use native.Mathlib.Omega.{arith}
use immix_rust.Prelude.Families.{with_thread}
use immix_rust.Common.Address.{ObjectReference}
use immix_rust.Crossbeam.{Injector}
use immix_rust.Crossbeam.Batch.{BatchInjector}
use immix_rust.Immix.Block.{ImmixBlock}
use immix_rust.Immix.Mutator.{ImmixMutatorLocal}
use immix_rust.Gc.Barrier.{Stage, Process, Threads}
use immix_rust.Gc.Barrier.Stages.{in_control, is_late, in_charge, is_waiting, is_alone}
use immix_rust.Gc.Barrier.Acts.Control.{Act-controller, Act-charge, Act-waiting, Act-late}
use immix_rust.Gc.Barrier.Going.Actor.{clash, Acted, stage_self, by_cases, flag, nobody_alone}

no_some : {k : ℕ} → none ≡ some k → ⊥
no_some e = cc

some_inj : {j k : ℕ} → some j ≡ some k → j ≡ k
some_inj e = cc

late_clash : (s : Stage) → is_late s ≡ true → in_control s ≡ true → ⊥
late_clash s h h' = ground arith

late_alone : (s : Stage) → is_late s ≡ true → is_alone s ≡ true
late_alone s h = ground arith

control_charge : (s : Stage) → in_control s ≡ true → in_charge s ≡ true
control_charge s h = ground arith

module _ {I : Injector ImmixBlock} {J : BatchInjector ObjectReference} {cpus slots : ℕ}
    {t : Threads I J cpus} {i : ℕ} {m : Process I J cpus} {l : ImmixMutatorLocal}
    {st : List ObjectReference} {p : Stage} (g : Acted I J cpus slots t i m l st p) where
  open g use {few, v, below, a}

  abbrev next : ℕ → Stage
  next = with_thread i p t.stages

  pub control_of_next : (j : ℕ) → j < slots → in_control (next j) ≡ true → m.controller ≡ some j
  control_of_next =
      (by_cases g) (λ j s. j < slots → in_control s ≡ true → m.controller ≡ some j) here others
    where
      here : i < slots → in_control p ≡ true → m.controller ≡ some i
      here ib h = elim (Act-controller I J cpus a) [
        | inl (same, held) ↦ same ∙ v.control_of i ib (sym held ∙ h)
        | inr (inl (free, taken, was, is)) ↦ taken
        | inr (inr (was, given, is)) ↦ absurd (clash is h)
      ]

      others : (j : ℕ) → i ≢ j → j < slots → in_control (t.stages j) ≡ true → m.controller ≡ some j
      others j other jb h = elim (Act-controller I J cpus a) [
        | inl (same, held) ↦ same ∙ v.control_of j jb h
        | inr (inl (free, taken, was, is)) ↦ absurd (no_some (sym free ∙ v.control_of j jb h))
        | inr (inr (was, given, is)) ↦
            absurd (other (some_inj (sym (v.control_of i below was) ∙ v.control_of j jb h)))
      ]

  pub control_at_next : (j : ℕ) → m.controller ≡ some j → (j < slots) × (in_control (next j) ≡ true)
  control_at_next j e = elim (Act-controller I J cpus a) [
    | inl (same, held) ↦
        let (jb, h) = v.control_at j (sym same ∙ e) in
        (
          jb,
          (by_cases g) (λ k s. in_control (t.stages k) ≡ true → in_control s ≡ true) (λ h. held ∙ h)
              (λ k other h. h) j h,
        )
    | inr (inl (free, taken, was, is)) ↦
        let same = some_inj (sym taken ∙ e) in
        (
          subst (λ k. k < slots) same below,
          subst (λ k. in_control (next k) ≡ true) same (ap in_control (stage_self g) ∙ is),
        )
    | inr (inr (was, given, is)) ↦ absurd (no_some (sym given ∙ e))
  ]

  pub late_next : (j : ℕ) → j < slots → is_late (next j) ≡ true → m.controller ≡ none
  late_next = (by_cases g) (λ j s. j < slots → is_late s ≡ true → m.controller ≡ none) here others
    where
      kept : t.process.controller ≡ none → is_late p ≡ true → m.controller ≡ none
      kept free h = elim (Act-controller I J cpus a) [
        | inl (same, held) ↦ same ∙ free
        | inr (inl (was_free, taken, was, is)) ↦ absurd (late_clash p h is)
        | inr (inr (was, given, is)) ↦ given
      ]

      here : i < slots → is_late p ≡ true → m.controller ≡ none
      here ib h = elim (Act-late I J cpus a h) [
        | inl was ↦ kept (v.late i ib was) h
        | inr free ↦ free
      ]

      others : (j : ℕ) → i ≢ j → j < slots → is_late (t.stages j) ≡ true → m.controller ≡ none
      others j other jb h = absurd ((nobody_alone g) j jb other (late_alone (t.stages j) h))

  charge_kept :
      (k : ℕ) × (k < slots) × (in_charge (t.stages k) ≡ true)
      → (k : ℕ) × (k < slots) × (in_charge (next k) ≡ true)
  charge_kept (k, kb, h) = (
    k,
    kb,
    (by_cases g) (λ k s. in_charge (t.stages k) ≡ true → in_charge s ≡ true) (Act-charge I J cpus a)
        (λ k other h. h) k h,
  )

  pub charge_next :
      (j : ℕ)
      → j < slots
      → is_waiting (next j) ≡ true
      → (k : ℕ) × (k < slots) × (in_charge (next k) ≡ true)
  charge_next =
      (by_cases g)
        (λ j s.
          j < slots → is_waiting s ≡ true → (k : ℕ) × (k < slots) × (in_charge (next k) ≡ true))
        here (λ j other jb h. charge_kept (v.charge j jb h))
    where
      here : i < slots → is_waiting p ≡ true → (k : ℕ) × (k < slots) × (in_charge (next k) ≡ true)
      here ib h = elim (Act-waiting I J cpus a (flag g) h) [
        | inl was ↦ charge_kept (v.charge i ib was)
        | inr (k, e, at) ↦
            let (kb, held) = v.control_at k e in
            charge_kept (k, kb, control_charge (t.stages k) held)
      ]
