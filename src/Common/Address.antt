-- ===== src/Common/Address.antt =====
-- src/common/mod.rs: `Address` and `ObjectReference`. Both wrap a `usize` of 64 bits and are modelled
-- by the number in it. The release build is modelled: arithmetic wraps, and `debug_assert!` is off.
pub mod Align
use Prim.Native.Nat.{ℕ, ◌+◌, ◌-◌, ◌*◌, ◌/◌, ◌%◌, ◌^◌, bit_and}

-- One more than `usize::MAX`.
abbrev pub usize_mod : ℕ
usize_mod = 2 ^ 64

-- Wrapping addition and subtraction of `usize`.
abbrev pub wrapping_add : ℕ → ℕ → ℕ
wrapping_add a b = (a + b) % usize_mod

abbrev pub wrapping_sub : ℕ → ℕ → ℕ
wrapping_sub a b = (a + usize_mod - b) % usize_mod

-- `!x`
abbrev pub bit_not : ℕ → ℕ
bit_not x = usize_mod - 1 - x

-- `x << k` and `x >> k`
abbrev pub shift_left : ℕ → ℕ → ℕ
shift_left x k = x * 2 ^ k % usize_mod

abbrev pub shift_right : ℕ → ℕ → ℕ
shift_right x k = x / 2 ^ k

abbrev pub log_pointer_size : ℕ
log_pointer_size = 3

-- `size_of::<*mut ()>()`
abbrev pub pointer_size : ℕ
pointer_size = 8

abbrev pub Address : Type 0
Address = ℕ

abbrev pub ObjectReference : Type 0
ObjectReference = ℕ

unfoldable pub plus : Address → ℕ → Address
plus a bytes = wrapping_add a bytes

unfoldable pub diff : Address → Address → ℕ
diff a another = wrapping_sub a another

unfoldable pub align_up : Address → ℕ → Address
align_up a align = bit_and (wrapping_sub (wrapping_add a align) 1) (bit_not (wrapping_sub align 1))

abbrev pub null : Address
null = 0
