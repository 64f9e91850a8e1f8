-- ===== src/ObjectModel.antt =====
-- src/objectmodel.rs: the byte that describes an object in the allocation map.
use Prim.Native.Nat.{ℕ, ◌/◌}
use mathlib.Core.List.{List}
use immix_rust.Prelude.{Outcome, load}
use immix_rust.Common.Address.{Address, ObjectReference, diff, pointer_size}

abbrev pub ref_bits_len : ℕ
ref_bits_len = 6

abbrev pub obj_start_bit : ℕ
obj_start_bit = 6

abbrev pub short_encode_bit : ℕ
short_encode_bit = 7

-- `alloc_map` is what the raw pointer to the allocation map leads to.
unfoldable pub get_ref_byte : List ℕ → Address → ObjectReference → Outcome ℕ
unfolding diff
get_ref_byte alloc_map space_start obj = load alloc_map (diff obj space_start / pointer_size)
