-- ===== src/Immix/Globals.antt =====
-- src/heap/immix/immix_mutator.rs: what a mutator shares with the collector, `ImmixMutatorGlobal`, and
-- the table `MUTATORS` of those that are registered.
use Prim.Native.Nat.{ℕ}
use mathlib.Core.Bool.{Bool, true, false}
use mathlib.Core.List.{List, map}

pub record ImmixMutatorGlobal : Type 0 where
  pub take_yield : Bool
  pub still_blocked : Bool

abbrev pub new : ImmixMutatorGlobal
new = record { take_yield = false; still_blocked = false }

abbrev pub set_take_yield : Bool → ImmixMutatorGlobal → ImmixMutatorGlobal
set_take_yield b g = record g { take_yield = b }

abbrev pub set_still_blocked : Bool → ImmixMutatorGlobal → ImmixMutatorGlobal
set_still_blocked b g = record g { still_blocked = b }

-- The arena's live entries, each with its index, in the order of iteration.
abbrev pub Mutators : Type 0
Mutators = List (ℕ × ImmixMutatorGlobal)

-- `for (_, mutator) in MUTATORS.write().iter_mut()`
unfoldable pub for_each : (ImmixMutatorGlobal → ImmixMutatorGlobal) → Mutators → Mutators
for_each f = map (λ entry. (entry.0, f entry.1))

-- src/heap/gc/mod.rs: `trigger_gc`
unfoldable pub trigger_gc : Mutators → Mutators
unfolding for_each
trigger_gc = for_each (set_take_yield true)
