-- ===== src/Tests/Roots.antt =====
-- src/heap/gc/mod.rs: a scan of a stack of three words.
use Prim.Native.Nat.{ℕ, ◌+◌, ◌^◌, ◌-◌}
use mathlib.Core.Path.{◌≡◌, refl}
use mathlib.Core.List.{[], ◌∷◌}
use native.Mathlib.Omega.{arith}
use immix_rust.Prelude.{ok}
use immix_rust.Common.Address.{Address}
use immix_rust.Common.TraceMap
use immix_rust.Immix.Space.{ImmixSpace}
use immix_rust.Gc.Roots.{stack_scan}
use immix_rust.Gc.Roots.Valid.{IsMapped, stack_scan-objects}
use immix_rust.Tests.Spaces.{Blocks}

-- Four words, of which the second holds the start of an object.
abbrev four_words : ImmixSpace Blocks
four_words = record {
  start = 2 ^ 19;
  end = 2 ^ 19 + 32;
  alloc_map = record { start = 2 ^ 19; end = 2 ^ 19 + 32; ptr = 0 ∷ 193 ∷ 0 ∷ 0 ∷ [] };
  trace_map = TraceMap.new (2 ^ 19) (2 ^ 19 + 32);
  line_mark_table = record { space_start = 2 ^ 19; cells = []; len = 0 };
  total_blocks = 0;
  usable_blocks = [];
  used_blocks = [];
}

four_words-IsMapped : IsMapped Blocks four_words
four_words-IsMapped = record { begins = refl; low = omega arith; sized = λ p lo hi. omega arith }

-- The stack counts through the words of the space.
abbrev word : Address → ℕ
word a = 2 ^ 19 + (a - 4096)

stack_scan-objects_example :
    stack_scan Blocks four_words word 4096 4120 ((2 ^ 19 + 8) ∷ 5 ∷ [])
    ≡ ok ((2 ^ 19 + 8) ∷ (2 ^ 19 + 8) ∷ [])
stack_scan-objects_example =
    stack_scan-objects Blocks four_words four_words-IsMapped word 4120 (omega arith) 4096
      ((2 ^ 19 + 8) ∷ 5 ∷ []) (omega arith)

-- A value inside a word counts as an object, too.
misaligned_root :
    stack_scan Blocks four_words word 0 0 ((2 ^ 19 + 11) ∷ []) ≡ ok ((2 ^ 19 + 11) ∷ [])
unfolding stack_scan
misaligned_root = refl
