-- ===== src/Tests/Maps.antt =====
-- src/common, src/heap/immix/line_mark.rs: addresses, the trace map and the line marks.
use Prim.Native.Nat.{ℕ, ◌%◌, ◌^◌, ◌≤◌}
use mathlib.Core.Path.{◌≡◌, refl}
use mathlib.Core.Logic.{◌↔◌}
use mathlib.Core.Bool.{true, false}
use mathlib.Core.List.{[], ◌∷◌}
use mathlib.Core.Option.{Option, some, none}
use native.Mathlib.Omega.{arith}
use immix_rust.Prelude.{ok, All-get}
use immix_rust.Common.SafeAddressMap
use immix_rust.Common.Address.{align_up}
use immix_rust.Common.Address.Align.{align_up-least}
use immix_rust.Common.TraceMap.{
  TraceMap, new, flip_mark_state, is_untraced_and_valid, mark_as_traced,
}
use immix_rust.Common.TraceMap.Marks.{
  IsTraced, IsBinary, MarkedWord, flip-swaps, new-nothing_untraced, mark_as_traced-MarkedWord,
}
use immix_rust.Immix.LineMark.{
  free, live, fresh_alloc, LineMarkTable, LineMarkTableSlice, mark_line_live,
  get_next_available_line, get_next_unavailable_line,
}
use immix_rust.Immix.LineMark.Scan.{
  FirstFree, RunEnd, get_next_available_line-FirstFree, get_next_unavailable_line-RunEnd,
}
use immix_rust.Immix.LineMark.Marking.{IsTable, Marked, mark_line_live-Marked}

align_up_runs : (align_up 13 8 ≡ 16) × (align_up 16 8 ≡ 16)
unfolding align_up
align_up_runs = (refl, refl)

align_up-least_example :
    (align_up 13 (2 ^ 3) % 2 ^ 3 ≡ 0)
    × (13 ≤ align_up 13 (2 ^ 3))
    × ((b : ℕ) → b % 2 ^ 3 ≡ 0 → 13 ≤ b → align_up 13 (2 ^ 3) ≤ b)
align_up-least_example = align_up-least 13 3 (omega arith) (omega arith)

-- Two words: the first is traced, the second is not.
abbrev two_words : TraceMap
two_words = record { map = record { offset = 64; addresses = 1 ∷ 0 ∷ [] }; mark_state = 1 }

two_words-bytes : (p v : ℕ) → SafeAddressMap.get two_words.map p ≡ some v → v ≤ 1
unfolding SafeAddressMap.get
two_words-bytes p v e =
    All-get (λ b. b ≤ 1) (1 ∷ 0 ∷ []) (SafeAddressMap.normalized_index two_words.map p) v
      (omega arith) e

two_words-IsBinary : IsBinary two_words
two_words-IsBinary = record { state = omega arith; bytes = two_words-bytes }

two_words_marks :
    (is_untraced_and_valid two_words 64 ≡ false)
    × (is_untraced_and_valid two_words 79 ≡ true)
    × (is_untraced_and_valid two_words 80 ≡ false)
    × (is_untraced_and_valid (flip_mark_state two_words) 71 ≡ true)
unfolding is_untraced_and_valid flip_mark_state
two_words_marks = (refl, refl, refl, refl)

flip-swaps_example :
    ((is_untraced_and_valid (flip_mark_state two_words) 64 ≡ true) ↔ IsTraced two_words 64)
    × (IsTraced (flip_mark_state two_words) 64 ↔ (is_untraced_and_valid two_words 64 ≡ true))
flip-swaps_example = flip-swaps two_words 64 two_words-IsBinary

new-nothing_untraced_example : is_untraced_and_valid (new 64 128) 72 ≡ false
new-nothing_untraced_example = new-nothing_untraced 64 128 72

mark_as_traced-MarkedWord_example :
    (u : TraceMap) × (mark_as_traced two_words 72 ≡ ok u) × MarkedWord two_words u 72
unfolding SafeAddressMap.get
mark_as_traced-MarkedWord_example = mark_as_traced-MarkedWord two_words 72 (omega arith)

-- Four lines, of which two in the middle are free.
abbrev four_lines : LineMarkTable
four_lines = record { space_start = 512; cells = live ∷ free ∷ free ∷ fresh_alloc ∷ []; len = 4 }

abbrev whole_slice : LineMarkTableSlice
whole_slice = record { base = 0; len = 4 }

four_lines_scans :
    (get_next_available_line four_lines.cells whole_slice 0 ≡ ok (some 1))
    × (get_next_unavailable_line four_lines.cells whole_slice 1 ≡ ok 3)
    × (get_next_available_line four_lines.cells whole_slice 3 ≡ ok none)
unfolding get_next_available_line get_next_unavailable_line
four_lines_scans = (refl, refl, refl)

get_next_available_line-FirstFree_example :
    (r : Option ℕ) × (get_next_available_line four_lines.cells whole_slice 0 ≡ ok r)
    × FirstFree four_lines.cells whole_slice 0 r
get_next_available_line-FirstFree_example =
    get_next_available_line-FirstFree four_lines.cells whole_slice (omega arith) 0

get_next_unavailable_line-RunEnd_example :
    (r : ℕ) × (get_next_unavailable_line four_lines.cells whole_slice 1 ≡ ok r)
    × RunEnd four_lines.cells whole_slice 1 r
get_next_unavailable_line-RunEnd_example =
    get_next_unavailable_line-RunEnd four_lines.cells whole_slice (omega arith) 1 (omega arith)

four_lines-IsTable : IsTable four_lines
four_lines-IsTable = record { sized = refl; low = omega arith }

mark_line_live-Marked_example :
    (u : LineMarkTable) × (mark_line_live four_lines 1000 ≡ ok u) × Marked four_lines u 1
mark_line_live-Marked_example =
    mark_line_live-Marked four_lines 1000 four_lines-IsTable (omega arith, omega arith)
