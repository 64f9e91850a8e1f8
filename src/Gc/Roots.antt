-- ===== src/Gc/Roots.antt =====
-- src/heap/gc/mod.rs: `is_valid_object` and the conservative `stack_scan`. What the stack and the
-- registers hold is given: `word` is the word of memory at an address.
pub mod Valid
pub mod Objects
use Prim.Native.Nat.{ℕ, zero, suc, ◌+◌, ◌/◌, ◌^◌, bit_and}
use mathlib.Core.Bool.{Bool, true, false, not, ◌||◌}
use mathlib.Core.List.{List, [], ◌∷◌, ◌++◌}
use immix_rust.Prelude.{Outcome, ok, err, out_of_fuel, ◌>>=◌, ltb, leb, ◌==◌, if◌then◌else◌}
use immix_rust.Common.Address.{Address, ObjectReference, plus, diff, pointer_size}
use immix_rust.Common.AddressMap.{AddressMap}
use immix_rust.Common.AddressMap
use immix_rust.ObjectModel.{obj_start_bit}
use immix_rust.Crossbeam.{Injector}
use immix_rust.Immix.Block.{ImmixBlock}
use immix_rust.Immix.Space.{ImmixSpace}

-- The bit of `1 << OBJ_START_BIT`.
abbrev pub starts_object : ℕ → Bool
starts_object byte = not (bit_and byte (2 ^ obj_start_bit) == 0)

unfoldable pub is_valid_object : Address → Address → Address → AddressMap ℕ → Outcome Bool
unfolding AddressMap.get
is_valid_object addr start end live_map =
    if leb end addr || ltb addr start
    then ok false
    else (do byte ← AddressMap.get live_map addr; ok (starts_object byte))

module _ (I : Injector ImmixBlock) (s : ImmixSpace I) where
  -- `if is_valid_object(value, ..) { ret.push(value) }`
  unfoldable pub push_valid : List ObjectReference → Address → Outcome (List ObjectReference)
  unfolding is_valid_object
  push_valid ret value = do
    valid ← is_valid_object value s.start s.end s.alloc_map
    ok (if valid then ret ++ value ∷ [] else ret)

  -- The `@store` parts of `store_registers`, register by register.
  unfoldable pub store_registers : List ObjectReference → List ℕ → Outcome (List ObjectReference)
  unfolding push_valid
  store_registers ret [] = ok ret
  store_registers ret (register ∷ registers) = do
    ret' ← push_valid ret register
    store_registers ret' registers

  module _ (word : Address → ℕ) where
    -- `while cursor < low_water_mark`
    unfoldable pub scan_loop :
        ℕ → Address → Address → List ObjectReference → Outcome (List ObjectReference)
    unfolding push_valid plus
    scan_loop zero cursor low_water_mark ret =
        if ltb cursor low_water_mark then err out_of_fuel else ok ret
    scan_loop (suc fuel) cursor low_water_mark ret =
        let rest = (do
          ret' ← push_valid ret (word cursor)
          scan_loop fuel (plus cursor pointer_size) low_water_mark ret') in
        if ltb cursor low_water_mark then rest else ok ret

    unfoldable pub stack_scan : Address → Address → List ℕ → Outcome (List ObjectReference)
    unfolding scan_loop store_registers diff
    stack_scan stack_ptr low_water_mark registers = do
      ret ← scan_loop (diff low_water_mark stack_ptr / pointer_size + 1) stack_ptr low_water_mark []
      store_registers ret registers
