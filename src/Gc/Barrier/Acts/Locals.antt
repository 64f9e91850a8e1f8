-- ===== src/Gc/Barrier/Acts/Locals.antt =====
-- src/heap/gc/mod.rs: what one access of a thread in `sync_barrier` does to its mutator, the roots and the
-- flags.
use Prim.Native.Nat.{ℕ}
use mathlib.Core.Path.{◌≡◌, refl, ap, ◌∙◌}
use mathlib.Core.Logic.{◌≢◌, ◌⊎◌, inl, inr}
use mathlib.Core.Bool.{true, false}
use mathlib.Core.List.{List, ◌++◌}
use mathlib.Core.Option.{none, some}
use native.Mathlib.Omega.{arith}
use immix_rust.Prelude.Members.{Has, Has-append}
use immix_rust.Common.Address.{ObjectReference}
use immix_rust.Crossbeam.{Injector}
use immix_rust.Crossbeam.Batch.{BatchInjector}
use immix_rust.Immix.Block.{ImmixBlock}
use immix_rust.Immix.Mutator.{ImmixMutatorLocal}
use immix_rust.Gc.Barrier.{
  Stage, still_blocked, Process, heap, Act, work, trigger, leave, win, lose, prepare, scan_first,
  scan, scan_clash, more, read, enough, collect, collect_panics, store, clear, park, unblock,
  wait_again,
}
use immix_rust.Gc.Barrier.Stages.{
  in_control, is_emptied, is_scanned, is_drained, is_woken, is_resetting, is_clashed, SawOther,
  Seen,
}
use immix_rust.Gc.Barrier.Flags.{
  still_blocked-trigger_gc, still_blocked-cleared, still_blocked-remove, still_blocked-block_entry,
}
use immix_rust.Gc.Barrier.Acts.{
  clash, reset-id, return_block-empty, return_block-id, destroy-mutators, destroy-id,
}

module _ (I : Injector ImmixBlock) (J : BatchInjector ObjectReference) (cpus : ℕ) where
  abbrev pub Acts :
      ℕ
      → Process I J cpus
      → ImmixMutatorLocal
      → List ObjectReference
      → Stage
      → Process I J cpus
      → ImmixMutatorLocal
      → List ObjectReference
      → Stage
      → Type 0
  Acts = Act I J cpus

  pub Act-emptied :
      {i : ℕ} {m : Process I J cpus} {l : ImmixMutatorLocal} {st : List ObjectReference}
      {m' : Process I J cpus} {l' : ImmixMutatorLocal} {st' : List ObjectReference} {p p' : Stage}
      → Acts i m l st p m' l' st' p'
      → (is_emptied p ≡ true → l.block ≡ none)
      → is_emptied p' ≡ true
      → l'.block ≡ none
  Act-emptied {m} {l} (prepare {saw}) was h = return_block-empty I (heap I J cpus m l)
  Act-emptied (work e) was h = cc
  Act-emptied trigger was h = cc
  Act-emptied (win e e') was h = cc
  Act-emptied (lose e e') was h = cc
  Act-emptied (scan_clash e) was h = cc
  Act-emptied (collect_panics e) was h = cc
  Act-emptied leave was h = cc
  Act-emptied (unblock e) was h = cc
  Act-emptied a was h = was refl

  pub Act-roots :
      {i : ℕ} {m : Process I J cpus} {l : ImmixMutatorLocal} {st : List ObjectReference}
      {m' : Process I J cpus} {l' : ImmixMutatorLocal} {st' : List ObjectReference} {p p' : Stage}
      → Acts i m l st p m' l' st' p'
      → (o : ObjectReference) → Has o m.roots
      → Has o m'.roots ⊎ (is_drained p' ≡ true)
  Act-roots {m} {st} scan_first o h = inl (Has-append o m.roots st (inl h))
  Act-roots {m} {st} (scan e) o h = inl (Has-append o m.roots st (inl h))
  Act-roots {m} {st} (scan_clash e) o h = inl (Has-append o m.roots st (inl h))
  Act-roots (collect c) o h = inr refl
  Act-roots (collect_panics c) o h = inr refl
  Act-roots a o h = inl h

  pub Act-scanned :
      {i : ℕ} {m : Process I J cpus} {l : ImmixMutatorLocal} {st : List ObjectReference}
      {m' : Process I J cpus} {l' : ImmixMutatorLocal} {st' : List ObjectReference} {p p' : Stage}
      → Acts i m l st p m' l' st' p'
      → (is_woken p ≡ true → still_blocked l.id m.mutators ≡ false)
      → is_scanned p' ≡ true
      → ((m'.roots ≡ m.roots ++ st) × (st' ≡ st))
        ⊎ ((is_scanned p ≡ true) × (m'.roots ≡ m.roots) × (st' ≡ st))
  Act-scanned scan_first flag h = inl (refl, refl)
  Act-scanned (scan e) flag h = inl (refl, refl)
  Act-scanned (more e) flag h = inr (refl, refl, refl)
  Act-scanned read flag h = inr (refl, refl, refl)
  Act-scanned (enough e) flag h = inr (refl, refl, refl)
  Act-scanned park flag h = inr (refl, refl, refl)
  Act-scanned (wait_again e) flag h = absurd (clash (flag refl) e)
  Act-scanned a flag h = cc

  pub Act-drained :
      {i : ℕ} {m : Process I J cpus} {l : ImmixMutatorLocal} {st : List ObjectReference}
      {m' : Process I J cpus} {l' : ImmixMutatorLocal} {st' : List ObjectReference} {p p' : Stage}
      → Acts i m l st p m' l' st' p'
      → is_drained p ≡ true
      → is_drained p' ≡ true
  Act-drained store h = refl
  Act-drained clear h = refl
  Act-drained a h = cc

  pub Act-SawOther :
      {i : ℕ} {m : Process I J cpus} {l : ImmixMutatorLocal} {st : List ObjectReference}
      {m' : Process I J cpus} {l' : ImmixMutatorLocal} {st' : List ObjectReference} {p p' : Stage}
      → Acts i m l st p m' l' st' p'
      → (m.controller ≡ some i → in_control p ≡ true)
      → SawOther i p
      → SawOther i p'
  Act-SawOther (lose {k} flag e) own saw = λ same. clash refl (own (e ∙ ap some same))
  Act-SawOther (prepare {saw = none}) own saw = tt
  Act-SawOther (prepare {saw = some k}) own saw = saw
  Act-SawOther (win flag e) own saw = tt
  Act-SawOther a own saw = tt

  pub Act-Seen :
      {i : ℕ} {m : Process I J cpus} {l : ImmixMutatorLocal} {st : List ObjectReference}
      {m' : Process I J cpus} {l' : ImmixMutatorLocal} {st' : List ObjectReference} {p p' : Stage}
      → Acts i m l st p m' l' st' p'
      → Seen m.stw_count p
      → Seen m'.stw_count p'
  Act-Seen scan_first seen = omega arith
  Act-Seen (more e) seen = seen
  Act-Seen read seen = omega arith
  Act-Seen (prepare {saw = none}) seen = tt
  Act-Seen (prepare {saw = some k}) seen = tt
  Act-Seen a seen = tt

  pub Act-id :
      {i : ℕ} {m : Process I J cpus} {l : ImmixMutatorLocal} {st : List ObjectReference}
      {m' : Process I J cpus} {l' : ImmixMutatorLocal} {st' : List ObjectReference} {p p' : Stage}
      → Acts i m l st p m' l' st' p'
      → l'.id ≡ l.id
  Act-id (work e) = e
  Act-id {m} {l} leave = destroy-id I (heap I J cpus m l)
  Act-id {m} {l} (prepare {saw}) = return_block-id I (heap I J cpus m l)
  Act-id {l} (unblock e) = reset-id l
  Act-id a = refl

  pub Act-still_blocked :
      {i : ℕ} {m : Process I J cpus} {l : ImmixMutatorLocal} {st : List ObjectReference}
      {m' : Process I J cpus} {l' : ImmixMutatorLocal} {st' : List ObjectReference} {p p' : Stage}
      → Acts i m l st p m' l' st' p'
      → (j : ℕ) → l.id ≢ j
      → still_blocked j m.mutators ≡ false
      → still_blocked j m'.mutators ≡ false
  Act-still_blocked {m} trigger j other h = still_blocked-trigger_gc j m.mutators ∙ h
  Act-still_blocked {m} {l} leave j other h =
      ap (still_blocked j) (destroy-mutators I (heap I J cpus m l))
      ∙ still_blocked-remove l.id j m.mutators other
      ∙ h
  Act-still_blocked {m} clear j other h = still_blocked-cleared j m.mutators
  Act-still_blocked {m} {l} park j other h = still_blocked-block_entry l.id j m.mutators other ∙ h
  Act-still_blocked a j other h = h

  pub Act-cleared :
      {i : ℕ} {m : Process I J cpus} {l : ImmixMutatorLocal} {st : List ObjectReference}
      {m' : Process I J cpus} {l' : ImmixMutatorLocal} {st' : List ObjectReference} {p p' : Stage}
      → Acts i m l st p m' l' st' p'
      → is_resetting p' ≡ true
      → (j : ℕ) → still_blocked j m'.mutators ≡ false
  Act-cleared {m} clear h j = still_blocked-cleared j m.mutators
  Act-cleared a h j = cc

  pub Act-not_woken :
      {i : ℕ} {m : Process I J cpus} {l : ImmixMutatorLocal} {st : List ObjectReference}
      {m' : Process I J cpus} {l' : ImmixMutatorLocal} {st' : List ObjectReference} {p p' : Stage}
      → Acts i m l st p m' l' st' p'
      → is_woken p' ≡ false
  Act-not_woken (work e) = refl
  Act-not_woken a = refl

  pub Act-clashed :
      {i : ℕ} {m : Process I J cpus} {l : ImmixMutatorLocal} {st : List ObjectReference}
      {m' : Process I J cpus} {l' : ImmixMutatorLocal} {st' : List ObjectReference} {p p' : Stage}
      → Acts i m l st p m' l' st' p'
      → SawOther i p
      → is_clashed p' ≡ false
  Act-clashed (scan_clash e) saw = absurd (saw e)
  Act-clashed a saw = refl
