-- ===== src/Gc/Barrier/Acts.antt =====
-- src/heap/gc/mod.rs: what the calls that a thread makes in `sync_barrier` do to its mutator.
pub mod Control
pub mod Locals
use Prim.Native.Nat.{ℕ, ◌+◌, ◌≤◌, ◌<◌}
use mathlib.Core.Path.{◌≡◌, refl, ap, ◌∙◌}
use mathlib.Core.Logic.{◌≢◌, ◌⊎◌, inl, inr}
use mathlib.Core.Bool.{Bool, true, false}
use mathlib.Core.List.{List, ◌++◌}
use mathlib.Core.Option.{none, some}
use native.Mathlib.Omega.{arith}
use immix_rust.Prelude.{Option-cases}
use immix_rust.Prelude.Families.{as_one}
use immix_rust.Prelude.Members.{Has, Has-append}
use immix_rust.Common.Address.{ObjectReference, wrapping_sub, usize_mod}
use immix_rust.Crossbeam.{Injector}
use immix_rust.Crossbeam.Batch.{BatchInjector}
use immix_rust.Immix.Block.{ImmixBlock}
use immix_rust.Immix.Mutator.{ImmixMutatorLocal, reset, Heap, destroy, return_block, remove}
use immix_rust.Gc.Barrier.{
  Stage, running, counting, still_blocked, Process, heap, Act, work, trigger, leave, win, lose,
  prepare, scan_first, scan, scan_clash, more, read, enough, collect, collect_panics, store, clear,
  park, unblock, wait_again,
}
use immix_rust.Gc.Barrier.Stages.{
  in_control, is_late, in_charge, is_parked, is_waiting, is_alone, is_registered, is_emptied,
  is_scanned, is_drained, is_woken, is_resetting, is_clashed, SawOther, Seen,
}
use immix_rust.Gc.Barrier.Flags.{
  still_blocked-trigger_gc, still_blocked-cleared, still_blocked-remove, still_blocked-block_entry,
}

pub clash : {b : Bool} → b ≡ false → b ≡ true → ⊥
clash f t = cc

pub reset-id : (l : ImmixMutatorLocal) → (reset l).id ≡ l.id
unfolding reset
reset-id l = refl

module _ (I : Injector ImmixBlock) where
  pub return_block-empty : (h : Heap I) → (return_block I h).local.block ≡ none
  unfolding return_block
  return_block-empty h = elim (Option-cases h.local.block) [
    | inl e ↦ ground (arith, e)
    | inr (b, e) ↦ ground (arith, e)
  ]

  pub return_block-id : (h : Heap I) → (return_block I h).local.id ≡ h.local.id
  unfolding return_block
  return_block-id h = ground arith

  pub destroy-n_mutators : (h : Heap I) → (destroy I h).n_mutators ≡ wrapping_sub h.n_mutators 1
  unfolding destroy return_block
  destroy-n_mutators h = ground arith

  pub destroy-mutators : (h : Heap I) → (destroy I h).mutators ≡ remove h.local.id h.mutators
  unfolding destroy return_block
  destroy-mutators h = ground arith

  pub destroy-id : (h : Heap I) → (destroy I h).local.id ≡ h.local.id
  unfolding destroy return_block
  destroy-id h = ground arith
