-- ===== src/Common/TraceMap.antt =====
-- src/common/address_map.rs: `TraceMap`, which remembers what the collector has visited. A word of
-- the space is traced when its byte equals the mark state, which every collection flips.
pub mod Marks
pub mod Later
use Prim.Native.Nat.{ℕ, bit_xor}
use mathlib.Core.Bool.{Bool, false, not}
use mathlib.Core.Option.{none, some}
use immix_rust.Prelude.{Outcome, ok, ◌>>=◌, ◌==◌}
use immix_rust.Common.SafeAddressMap.{SafeAddressMap}
use immix_rust.Common.SafeAddressMap

pub record TraceMap : Type 0 where
  pub map : SafeAddressMap ℕ
  pub mark_state : ℕ

-- `AtomicU8::default()` holds 0.
unfoldable pub new : ℕ → ℕ → TraceMap
unfolding SafeAddressMap.new_of
new start end = record { map = SafeAddressMap.new_of start end 0; mark_state = 0 }

unfoldable pub flip_mark_state : TraceMap → TraceMap
flip_mark_state t = record t { mark_state = bit_xor t.mark_state 1 }

unfoldable pub is_traced : TraceMap → ℕ → Outcome Bool
unfolding SafeAddressMap.index
is_traced t ptr = do v ← SafeAddressMap.index t.map ptr; ok (v == t.mark_state)

unfoldable pub is_untraced_and_valid : TraceMap → ℕ → Bool
unfolding SafeAddressMap.get
is_untraced_and_valid t ptr = elim (SafeAddressMap.get t.map ptr) [
  | some v ↦ not (v == t.mark_state)
  | none ↦ false
]

unfoldable pub mark_as_traced : TraceMap → ℕ → Outcome TraceMap
unfolding SafeAddressMap.index_mut
mark_as_traced t ptr = do
  map ← SafeAddressMap.index_mut t.map ptr t.mark_state
  ok (record t { map = map })
