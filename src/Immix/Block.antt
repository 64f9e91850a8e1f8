-- ===== src/Immix/Block.antt =====
-- src/heap/immix/immix_space.rs: `ImmixBlock`.
use Prim.Native.Nat.{ℕ}
use mathlib.Core.List.{List}
use mathlib.Core.Option.{Option}
use immix_rust.Prelude.{Outcome}
use immix_rust.Common.Address.{Address}
use immix_rust.Immix.Sizes.{BlockMark}
use immix_rust.Immix.LineMark.{LineMark, LineMarkTableSlice}
use immix_rust.Immix.LineMark

pub record ImmixBlock : Type 0 where
  pub id : ℕ
  pub state : BlockMark
  pub start : Address
  pub line_mark_table : LineMarkTableSlice

unfoldable pub get_next_available_line : List LineMark → ImmixBlock → ℕ → Outcome (Option ℕ)
unfolding LineMark.get_next_available_line
get_next_available_line cells b cur_line =
    LineMark.get_next_available_line cells b.line_mark_table cur_line

unfoldable pub get_next_unavailable_line : List LineMark → ImmixBlock → ℕ → Outcome ℕ
unfolding LineMark.get_next_unavailable_line
get_next_unavailable_line cells b cur_line =
    LineMark.get_next_unavailable_line cells b.line_mark_table cur_line

abbrev pub set_state : BlockMark → ImmixBlock → ImmixBlock
set_state mark b = record b { state = mark }
