-- ===== src/Common/AddressMap.antt =====
-- src/common/address_map.rs: `AddressMap`, one cell for each word of a space, behind a raw pointer.
use Prim.Native.Nat.{ℕ}
use mathlib.Core.List.{List}
use immix_rust.Prelude.{replicate, Outcome, load, store, ◌>>=◌, ok}
use immix_rust.Common.Address.{Address, diff, shift_right, log_pointer_size}

-- `ptr` is the allocation that the raw pointer leads to, cell by cell.
pub record AddressMap {ℓ} (A : Type ℓ) : Type ℓ where
  pub start : Address
  pub end : Address
  pub ptr : List A

module _ {ℓ} {A : Type ℓ} where
  -- `zeroed` is the value of `A` whose bytes are all 0, which `alloc_zeroed` fills the cells with.
  unfoldable pub new : A → Address → Address → AddressMap A
  unfolding diff
  new zeroed start end = record {
    start = start;
    end = end;
    ptr = replicate (shift_right (diff end start) log_pointer_size) zeroed;
  }

  unfoldable pub index_of : AddressMap A → Address → ℕ
  unfolding diff
  index_of m addr = shift_right (diff addr m.start) log_pointer_size

  unfoldable pub set : AddressMap A → Address → A → Outcome (AddressMap A)
  unfolding index_of
  set m addr value = do ptr ← store m.ptr (index_of m addr) value; ok (record m { ptr = ptr })

  unfoldable pub get : AddressMap A → Address → Outcome A
  unfolding index_of
  get m addr = load m.ptr (index_of m addr)
