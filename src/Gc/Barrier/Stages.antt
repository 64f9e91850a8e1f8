-- ===== src/Gc/Barrier/Stages.antt =====
-- src/heap/gc/mod.rs: what the place of a thread in `sync_barrier` says about it.
use Prim.Native.Nat.{ℕ, ◌≤◌}
use mathlib.Core.Logic.{◌≢◌}
use mathlib.Core.Bool.{Bool, true, false}
use mathlib.Core.Option.{none, some}
use immix_rust.Gc.Barrier.{
  Stage, absent, entered, prepared, counting, reading, collecting, storing, clearing, resetting,
  parking, parked, woken, clashed, panicked,
}

-- The thread is the controller.
abbrev pub in_control : Stage → Bool
in_control (entered none) = true
in_control (prepared none) = true
in_control (counting count) = true
in_control (reading count) = true
in_control collecting = true
in_control storing = true
in_control panicked = true
in_control _ = false

-- The thread has given the control back, and has not notified the others.
abbrev pub is_late : Stage → Bool
is_late clearing = true
is_late resetting = true
is_late _ = false

-- The others wait for the thread.
abbrev pub in_charge : Stage → Bool
in_charge clearing = true
in_charge resetting = true
in_charge stage = in_control stage

abbrev pub is_parked : Stage → Bool
is_parked parked = true
is_parked _ = false

-- The thread waits for the controller, or is on the way to.
abbrev pub is_waiting : Stage → Bool
is_waiting (entered (some k)) = true
is_waiting (prepared (some k)) = true
is_waiting parking = true
is_waiting parked = true
is_waiting _ = false

-- The thread has seen that all others are parked.
abbrev pub is_alone : Stage → Bool
is_alone collecting = true
is_alone storing = true
is_alone clearing = true
is_alone resetting = true
is_alone _ = false

abbrev pub is_registered : Stage → Bool
is_registered absent = false
is_registered _ = true

-- The thread has returned its block.
abbrev pub is_emptied : Stage → Bool
is_emptied (prepared saw) = true
is_emptied (counting count) = true
is_emptied (reading count) = true
is_emptied collecting = true
is_emptied storing = true
is_emptied clearing = true
is_emptied resetting = true
is_emptied parking = true
is_emptied parked = true
is_emptied woken = true
is_emptied _ = false

-- The thread has added its roots, for a collection that has not begun.
abbrev pub is_scanned : Stage → Bool
is_scanned (counting count) = true
is_scanned (reading count) = true
is_scanned collecting = true
is_scanned parking = true
is_scanned parked = true
is_scanned _ = false

-- The thread has run the collection, which empties the roots.
abbrev pub is_drained : Stage → Bool
is_drained storing = true
is_drained clearing = true
is_drained resetting = true
is_drained panicked = true
is_drained _ = false

abbrev pub is_woken : Stage → Bool
is_woken woken = true
is_woken _ = false

abbrev pub is_resetting : Stage → Bool
is_resetting resetting = true
is_resetting _ = false

abbrev pub is_clashed : Stage → Bool
is_clashed clashed = true
is_clashed _ = false

-- The controller that the thread of slot `i` has seen is another one.
abbrev pub SawOther : ℕ → Stage → Type 0
SawOther i (entered (some k)) = k ≢ i
SawOther i (prepared (some k)) = k ≢ i
SawOther i _ = Unit

-- What the controller has read of the count is not more than it is.
abbrev pub Seen : ℕ → Stage → Type 0
Seen stw_count (counting count) = count ≤ stw_count
Seen stw_count (reading count) = count ≤ stw_count
Seen stw_count _ = Unit
