-- ===== src/Common/SafeAddressMap.antt =====
-- src/common/address_map.rs: `SafeAddressMap`, the same over a `Vec`, with checked access.
use Prim.Native.Nat.{ℕ, ◌/◌}
use mathlib.Core.List.{List}
use mathlib.Core.Option.{Option}
use immix_rust.Prelude.{
  length, get_elem?, set, replicate, Outcome, of_option, panicked, ◌>>◌, ok, check, ltb,
}
use immix_rust.Common.Address.{wrapping_add, wrapping_sub, pointer_size}

pub record SafeAddressMap {ℓ} (A : Type ℓ) : Type ℓ where
  pub offset : ℕ
  pub addresses : List A

module _ {ℓ} {A : Type ℓ} where
  -- The closure of `resize_with` is only ever `T::default`: it is modelled by the value it returns.
  unfoldable pub new_of : ℕ → ℕ → A → SafeAddressMap A
  new_of start end value =
      let len =
        wrapping_sub (wrapping_add (wrapping_sub end start) pointer_size) 1 / pointer_size in
      record { offset = start; addresses = replicate len value }

  unfoldable pub normalized_index : SafeAddressMap A → ℕ → ℕ
  normalized_index m index = wrapping_sub index m.offset / pointer_size

  unfoldable pub get : SafeAddressMap A → ℕ → Option A
  unfolding normalized_index
  get m index = get_elem? m.addresses (normalized_index m index)

  -- `map[index]` and `map[index] = value`, which panic past the end of the vector.
  unfoldable pub index : SafeAddressMap A → ℕ → Outcome A
  unfolding normalized_index
  index m i = of_option panicked (get_elem? m.addresses (normalized_index m i))

  unfoldable pub index_mut : SafeAddressMap A → ℕ → A → Outcome (SafeAddressMap A)
  unfolding normalized_index
  index_mut m i value = do
    check (ltb (normalized_index m i) (length m.addresses)) panicked
    ok (record m { addresses = set m.addresses (normalized_index m i) value })
