-- ===== src/Immix/LineMark.antt =====
-- src/heap/immix/line_mark.rs: the table of line marks and its slices. A slice is a pointer into the
-- allocation of the table, so its operations take the cells of the table as an argument: what one
-- slice writes, the table and every other slice read.
pub mod Scan
pub mod Marking
use Prim.Native.Nat.{ℕ, zero, suc, ◌+◌, ◌-◌, ◌/◌}
use mathlib.Core.Bool.{Bool, true, false}
use mathlib.Core.List.{List}
use mathlib.Core.Option.{Option, none, some}
use immix_rust.Prelude.{
  replicate, Outcome, ok, err, out_of_fuel, load, store, ◌>>=◌, ltb, if◌then◌else◌,
}
use immix_rust.Common.Address.{Address, diff, shift_right, wrapping_sub}
use immix_rust.Immix.Sizes.{bytes_in_line, log_bytes_in_line}

pub data LineMark : Type 0 where
  free live fresh_alloc conserv_live prev_live : LineMark

-- `cells` is the allocation behind `ptr`.
pub record LineMarkTable : Type 0 where
  pub space_start : Address
  pub cells : List LineMark
  pub len : ℕ

-- The loop of `new` writes `free` to every cell that it allocates.
unfoldable pub new : Address → Address → LineMarkTable
unfolding diff
new space_start space_end =
    let line_mark_table_len = diff space_end space_start / bytes_in_line in
    record {
      space_start = space_start;
      cells = replicate line_mark_table_len free;
      len = line_mark_table_len;
    }

unfoldable pub set : LineMarkTable → ℕ → LineMark → Outcome LineMarkTable
set t index value = do cells ← store t.cells index value; ok (record t { cells = cells })

unfoldable pub get : LineMarkTable → ℕ → Outcome LineMark
get t index = load t.cells index

-- The two writes that `mark_line_live` and `mark_line_live2` make.
unfoldable pub mark_line : LineMarkTable → ℕ → Outcome LineMarkTable
unfolding set
mark_line t line_table_index = do
  t' ← set t line_table_index live
  if ltb line_table_index (wrapping_sub t.len 1)
      then set t' (line_table_index + 1) conserv_live
      else ok t'

unfoldable pub mark_line_live2 : LineMarkTable → Address → Address → Outcome LineMarkTable
unfolding diff mark_line
mark_line_live2 t space_start addr =
    mark_line t (shift_right (diff addr space_start) log_bytes_in_line)

unfoldable pub mark_line_live : LineMarkTable → Address → Outcome LineMarkTable
unfolding diff mark_line
mark_line_live t addr = mark_line t (shift_right (diff addr t.space_start) log_bytes_in_line)

-- `base` is the offset of the slice's pointer from the table's.
pub record LineMarkTableSlice : Type 0 where
  pub base : ℕ
  pub len : ℕ

unfoldable pub take_slice : LineMarkTable → ℕ → ℕ → LineMarkTableSlice
take_slice t start len = record { base = start; len = len }

unfoldable pub slice_get : List LineMark → LineMarkTableSlice → ℕ → Outcome LineMark
slice_get cells s index = load cells (s.base + index)

unfoldable pub slice_set :
    List LineMark → LineMarkTableSlice → ℕ → LineMark → Outcome (List LineMark)
slice_set cells s index value = store cells (s.base + index) value

-- `mark == LineMark::Live || mark == LineMark::ConservLive`, by which `sweep` tells what it keeps.
abbrev pub is_live : LineMark → Bool
is_live live = true
is_live conserv_live = true
is_live _ = false

abbrev pub is_free : LineMark → Bool
is_free free = true
is_free _ = false

-- The two `while i < self.len` loops, with the rounds that are left as fuel.
unfoldable pub available_loop : ℕ → List LineMark → LineMarkTableSlice → ℕ → Outcome (Option ℕ)
unfolding slice_get
available_loop zero cells s i = if ltb i s.len then err out_of_fuel else ok none
available_loop (suc fuel) cells s i =
    let next = available_loop fuel cells s (i + 1) in
    if ltb i s.len
    then (do m ← slice_get cells s i; if is_free m then ok (some i) else next)
    else ok none

unfoldable pub get_next_available_line : List LineMark → LineMarkTableSlice → ℕ → Outcome (Option ℕ)
unfolding available_loop
get_next_available_line cells s cur_line = available_loop (s.len - cur_line) cells s cur_line

unfoldable pub unavailable_loop : ℕ → List LineMark → LineMarkTableSlice → ℕ → Outcome ℕ
unfolding slice_get
unavailable_loop zero cells s i = if ltb i s.len then err out_of_fuel else ok i
unavailable_loop (suc fuel) cells s i =
    let next = unavailable_loop fuel cells s (i + 1) in
    if ltb i s.len then (do m ← slice_get cells s i; if is_free m then next else ok i) else ok i

unfoldable pub get_next_unavailable_line : List LineMark → LineMarkTableSlice → ℕ → Outcome ℕ
unfolding unavailable_loop
get_next_unavailable_line cells s cur_line = unavailable_loop (s.len - cur_line) cells s cur_line
