-- ===== src/Immix/Mutator/TakeHole.antt =====
-- src/heap/immix/immix_mutator.rs: how a mutator takes a hole of its block.
use Prim.Native.Nat.{ℕ, ◌+◌, ◌-◌, ◌*◌, ◌^◌, ◌≤◌, ◌<◌}
use mathlib.Core.Path.{◌≡◌, refl, sym, ap, subst, ◌∙◌}
use mathlib.Core.Logic.{inl, inr}
use mathlib.Core.List.{List}
use mathlib.Core.Option.{some}
use native.Mathlib.Omega.{arith}
use native.Mathlib.Decide.{ℕ_discrete}
use immix_rust.Prelude.{ok}
use immix_rust.Common.Address.{plus, shift_left}
use immix_rust.Crossbeam.{Injector}
use immix_rust.Immix.Sizes.{bytes_in_line, bytes_in_block, lines_in_block, log_bytes_in_line}
use immix_rust.Immix.Block.{ImmixBlock, get_next_unavailable_line}
use immix_rust.Immix.LineMark.{LineMark}
use immix_rust.Immix.LineMark.Scan.{IsFreeAt, IsTakenAt, RunEnd, get_next_unavailable_line-RunEnd}
use immix_rust.Immix.Mutator.{Heap, mark_fresh, take_hole}
use immix_rust.Immix.Mutator.Holes.{Freshened, mark_fresh-Freshened}
use immix_rust.Immix.Mutator.Invariant.{HasHole, IsBlockOf}

line_address :
    (start i : ℕ)
    → i ≤ lines_in_block
    → start + bytes_in_block < 2 ^ 63
    → plus start (shift_left i log_bytes_in_line) ≡ start + i * bytes_in_line
unfolding plus
line_address start i le high = omega arith

pub not_taken :
    (cells : List LineMark) (b : ImmixBlock) (i : ℕ)
    → IsFreeAt cells b.line_mark_table i
    → ¬ IsTakenAt cells b.line_mark_table i
not_taken cells b i fr (m, e, ne) = ne (cc)

RunEnd-lt :
    (cells : List LineMark) (b : ImmixBlock) (i r : ℕ)
    → i < b.line_mark_table.len
    → IsFreeAt cells b.line_mark_table i
    → RunEnd cells b.line_mark_table i r
    → i < r
RunEnd-lt cells b i r lt fr run = elim (ℕ_discrete i r) [
  | no ne ↦ omega (arith, run.from)
  | yes same ↦ elim run.stop [
    | inl end ↦ absurd (omega arith)
    | inr taken ↦
        absurd (not_taken cells b i fr (subst (IsTakenAt cells b.line_mark_table) (sym same) taken))
  ]
]

module _ (I : Injector ImmixBlock) where
  -- The hole that begins at the free line `i` is taken as a whole: the memory behind the cursor lies
  -- on the lines of the hole, all of them are marked, and no line outside the hole changes.
  pub record TookHole (h h' : Heap I) (b : ImmixBlock) (i r : ℕ) : Type 0 where
    pub run : RunEnd h.space.line_mark_table.cells b.line_mark_table i r
    pub lines :
        Freshened
          (b.line_mark_table.base + i)
          (r - i)
          h.space.line_mark_table.cells
          h'.space.line_mark_table.cells
    pub cursor : h'.local.cursor ≡ b.start + i * bytes_in_line
    pub limit : h'.local.limit ≡ b.start + r * bytes_in_line
    pub line : h'.local.line ≡ r
    pub block : h'.local.block ≡ h.local.block
    pub space : h'.space ≡ record h.space {
      line_mark_table = record h.space.line_mark_table { cells = h'.space.line_mark_table.cells };
    }

  took : Heap I → ImmixBlock → ℕ → ℕ → List LineMark → Heap I
  took h b i r cells = record h {
    local = record h.local {
      cursor = plus b.start (shift_left i log_bytes_in_line);
      limit = plus b.start (shift_left r log_bytes_in_line);
      line = r;
    };
    space = record h.space { line_mark_table = record h.space.line_mark_table { cells = cells } };
  }

  take_hole-of :
      (h : Heap I) (b : ImmixBlock) (i r : ℕ) (cells : List LineMark)
      → get_next_unavailable_line h.space.line_mark_table.cells b i ≡ ok r
      → mark_fresh (r - i) h.space.line_mark_table.cells b.line_mark_table i ≡ ok cells
      → take_hole I h b i ≡ ok (took h b i r cells)
  unfolding take_hole took
  take_hole-of h b i r cells end marks = rw (end, marks)

  pub take_hole-TookHole :
      (h : Heap I) (b : ImmixBlock) (i : ℕ)
      → IsBlockOf I h.space b
      → i < lines_in_block
      → IsFreeAt h.space.line_mark_table.cells b.line_mark_table i
      → (r : ℕ) × (h' : Heap I) × (take_hole I h b i ≡ ok h') × (i < r) × TookHole h h' b i r
  unfolding took get_next_unavailable_line
  take_hole-TookHole h b i v lt fr =
      let cells = h.space.line_mark_table.cells in
      let slice = b.line_mark_table in
      let (r, end, run) =
        get_next_unavailable_line-RunEnd cells slice (omega (arith, v.whole, v.inside)) i
          (omega (arith, v.whole)) in
      let (cells', marks, f) =
        mark_fresh-Freshened (r - i) cells slice i
          (omega (arith, v.whole, v.inside, run.from, run.below)) in
      (
        r,
        took h b i r cells',
        take_hole-of h b i r cells' end marks,
        RunEnd-lt cells b i r (omega (arith, v.whole)) fr run,
        record {
          run = run;
          lines = f;
          cursor = line_address b.start i (omega arith) v.high;
          limit = line_address b.start r (omega (arith, run.below, v.whole)) v.high;
          line = refl;
          block = refl;
          space = refl;
        },
      )

  pub TookHole-HasHole :
      (h h' : Heap I) (b : ImmixBlock) (i r : ℕ)
      → h.local.block ≡ some b
      → b.line_mark_table.len ≡ lines_in_block
      → i < r
      → TookHole h h' b i r
      → HasHole b h'.local h'.space.line_mark_table.cells
  TookHole-HasHole h h' b i r held whole lt t = record {
    held = t.block ∙ held;
    limit = t.limit ∙ ap (λ (n : ℕ). b.start + n * bytes_in_line) (sym t.line);
    low = omega (arith, t.cursor);
    high = omega (arith, t.cursor, t.limit);
    line = omega (arith, t.line, t.run.below);
    fresh =
        λ l below near. ground (arith, t.lines.at (b.line_mark_table.base + l), t.cursor, t.line);
  }
