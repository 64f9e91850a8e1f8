-- ===== src/Gc/Barrier/Flags.antt =====
-- The flag `still_blocked` of one mutator, under what happens to the table of all.
use Prim.Native.Nat.{ℕ}
use mathlib.Core.Path.{◌≡◌, refl}
use mathlib.Core.Logic.{◌≢◌}
use mathlib.Core.Bool.{false}
use mathlib.Core.List.{[], ◌∷◌, ◌++◌}
use native.Mathlib.Omega.{arith}
use immix_rust.Immix.Globals.{ImmixMutatorGlobal, set_take_yield, Mutators, for_each, trigger_gc}
use immix_rust.Immix.Globals
use immix_rust.Immix.Mutator.{remove}
use immix_rust.Gc.Barrier.{block_entry, still_blocked, cleared_flags}

pub still_blocked-trigger_gc :
    (j : ℕ) (ms : Mutators) → still_blocked j (trigger_gc ms) ≡ still_blocked j ms
unfolding still_blocked trigger_gc
still_blocked-trigger_gc j [] = refl
still_blocked-trigger_gc j ((i, g) ∷ ms) = ground (arith, still_blocked-trigger_gc j ms)

pub still_blocked-cleared :
    (j : ℕ) (ms : Mutators) → still_blocked j (for_each cleared_flags ms) ≡ false
unfolding still_blocked for_each
still_blocked-cleared j [] = refl
still_blocked-cleared j ((i, g) ∷ ms) = ground (arith, still_blocked-cleared j ms)

pub still_blocked-remove :
    (i j : ℕ) (ms : Mutators) → i ≢ j → still_blocked j (remove i ms) ≡ still_blocked j ms
unfolding still_blocked remove
still_blocked-remove i j [] other = refl
still_blocked-remove i j ((k, g) ∷ ms) other = ground (arith, still_blocked-remove i j ms other)

pub still_blocked-block_entry :
    (i j : ℕ) (ms : Mutators) → i ≢ j → still_blocked j (block_entry i ms) ≡ still_blocked j ms
unfolding still_blocked block_entry
still_blocked-block_entry i j [] other = refl
still_blocked-block_entry i j ((k, g) ∷ ms) other =
    ground (arith, still_blocked-block_entry i j ms other)

pub still_blocked-append :
    (i j : ℕ) (ms : Mutators)
    → i ≢ j
    → still_blocked j (ms ++ (i, Globals.new) ∷ []) ≡ still_blocked j ms
unfolding still_blocked
still_blocked-append i j [] other = ground arith
still_blocked-append i j ((k, g) ∷ ms) other = ground (arith, still_blocked-append i j ms other)
