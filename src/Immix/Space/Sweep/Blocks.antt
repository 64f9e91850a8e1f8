-- ===== src/Immix/Space/Sweep/Blocks.antt =====
-- Sweeping all used blocks: what becomes of the lines, the queues and the counts.
use Prim.Native.Nat.{ℕ, ◌+◌, ◌≤◌}
use mathlib.Core.Path.{◌≡◌, refl, ◌∙◌}
use mathlib.Core.Logic.{inl, inr}
use mathlib.Core.Bool.{Bool, true, false, ◌||◌}
use mathlib.Core.List.{List, [], ◌∷◌, ◌++◌, map, reverse_aux, append_assoc}
use native.Mathlib.Omega.{arith}
use immix_rust.Prelude.{length, get_elem?, ok, if◌then◌else◌, Bool-cases}
use immix_rust.Crossbeam.{Injector}
use immix_rust.Immix.Sizes.{usable, full}
use immix_rust.Immix.Block.{ImmixBlock, set_state}
use immix_rust.Immix.LineMark.{LineMark}
use immix_rust.Immix.Space.Sweep.{sweep_lines, Sweeping, file_block, sweep_block}
use immix_rust.Immix.Space.Sweep.Lines.{
  within, is_dead, any_dead, Swept, any_dead-cong, sweep_lines_lem,
}

-- The block's slice lies inside the allocation of the table.
abbrev pub Fits : List LineMark → ImmixBlock → Type 0
Fits cells b = b.line_mark_table.base + b.line_mark_table.len ≤ length cells

abbrev pub AllFit : List LineMark → List ImmixBlock → Type 0
AllFit cells [] = Unit
AllFit cells (b ∷ bs) = Fits cells b × AllFit cells bs

-- The cell `j` belongs to the block, or to one of the blocks.
abbrev pub covers : ImmixBlock → ℕ → Bool
covers b = within b.line_mark_table.base b.line_mark_table.len

abbrev pub covered : List ImmixBlock → ℕ → Bool
covered [] j = false
covered (b ∷ bs) j = covers b j || covered bs j

-- Some line of the block is not live.
abbrev pub has_free : List LineMark → ImmixBlock → Bool
has_free cells b = any_dead b.line_mark_table.len cells b.line_mark_table.base

abbrev pub partial : List LineMark → List ImmixBlock → List ImmixBlock
partial cells [] = []
partial cells (b ∷ bs) = if has_free cells b then b ∷ partial cells bs else partial cells bs

abbrev pub filled : List LineMark → List ImmixBlock → List ImmixBlock
filled cells [] = []
filled cells (b ∷ bs) = if has_free cells b then filled cells bs else b ∷ filled cells bs

pub AllFit-length :
    (cells cells' : List LineMark)
    → length cells' ≡ length cells
    → (bs : List ImmixBlock) → AllFit cells bs
    → AllFit cells' bs
AllFit-length cells cells' size [] fit = tt
AllFit-length cells cells' size (b ∷ bs) fit =
    (rw size fit.0, AllFit-length cells cells' size bs fit.1)

-- Sweeping does not change which lines are live, and so which blocks have a line to free.
module _ {over : ℕ → Bool} {cells cells' : List LineMark} (w : Swept over cells cells') where
  Swept-is_dead : (j : ℕ) → is_dead (get_elem? cells' j) ≡ is_dead (get_elem? cells j)
  Swept-is_dead j = ground (arith, w.at j)

  Swept-has_free : (b : ImmixBlock) → has_free cells' b ≡ has_free cells b
  Swept-has_free b =
      any_dead-cong b.line_mark_table.len b.line_mark_table.base cells cells'
        (λ j _. Swept-is_dead j)

  Swept-partial : (bs : List ImmixBlock) → partial cells' bs ≡ partial cells bs
  Swept-partial [] = refl
  Swept-partial (b ∷ bs) = rw (Swept-has_free b, Swept-partial bs)

  Swept-filled : (bs : List ImmixBlock) → filled cells' bs ≡ filled cells bs
  Swept-filled [] = refl
  Swept-filled (b ∷ bs) = rw (Swept-has_free b, Swept-filled bs)

  pub Swept-AllFit : (bs : List ImmixBlock) → AllFit cells bs → AllFit cells' bs
  Swept-AllFit = AllFit-length cells cells' w.size

Swept-trans :
    {p q : ℕ → Bool} {a b c : List LineMark}
    → Swept p a b
    → Swept q b c
    → Swept (λ j. p j || q j) a c
Swept-trans v w = record { size = w.size ∙ v.size; at = λ j. ground (arith, v.at j, w.at j) }

module _ (I : Injector ImmixBlock) where
  -- What the loop makes of its variables when it sweeps the blocks `bs`.
  pub record After (bs : List ImmixBlock) (w w' : Sweeping I) : Type 0 where
    pub lines : Swept (covered bs) w.cells w'.cells
    pub usable_items :
        I.items w'.usable_queue
        ≡ I.items w.usable_queue ++ map (set_state usable) (partial w.cells bs)
    pub used_items : I.items w'.used_queue ≡ []
    pub live_items :
        w'.live_blocks ≡ reverse_aux (map (set_state full) (filled w.cells bs)) w.live_blocks
    pub usable_count : w'.usable_blocks ≡ w.usable_blocks + length (partial w.cells bs)
    pub full_count : w'.full_blocks ≡ w.full_blocks + length (filled w.cells bs)

  sweep_block-of :
      (w : Sweeping I) (b : ImmixBlock) (has : Bool) (cells : List LineMark)
      → sweep_lines b.line_mark_table.len b.line_mark_table 0 w.cells false ≡ ok (has, cells)
      → sweep_block I w b ≡ ok (file_block I (record w { cells = cells }) b has)
  unfolding sweep_block
  sweep_block-of w b has cells run = rw run

  pub sweep_block_lem :
      (w : Sweeping I) (b : ImmixBlock)
      → Fits w.cells b
      → (cells : List LineMark) × (sweep_block I w b
          ≡ ok (file_block I (record w { cells = cells }) b (has_free w.cells b)))
        × Swept (covers b) w.cells cells
  sweep_block_lem w b fits =
      let slice = b.line_mark_table in
      let e : slice.base + 0 ≡ slice.base = omega arith in
      let (cells, run, v) = sweep_lines_lem slice.len slice 0 w.cells false (omega arith) in
      (cells, sweep_block-of w b (has_free w.cells b) cells (rw e at run), rw e at v)

  module _ (b : ImmixBlock) (bs : List ImmixBlock) (w w' : Sweeping I) (cells : List LineMark)
      (v : Swept (covers b) w.cells cells) where
    After-partial :
        has_free w.cells b ≡ true
        → After bs (file_block I (record w { cells = cells }) b true) w'
        → After (b ∷ bs) w w'
    unfolding file_block
    After-partial h a = record {
      lines = Swept-trans v a.lines;
      usable_items =
          a.usable_items
          ∙ rw (h, I.items-push, Swept-partial v bs)
              (append_assoc (I.items w.usable_queue) (set_state usable b ∷ [])
                (map (set_state usable) (partial w.cells bs)));
      used_items = a.used_items;
      live_items = a.live_items ∙ rw (h, Swept-filled v bs);
      usable_count = a.usable_count ∙ rw (h, Swept-partial v bs) (omega arith);
      full_count = a.full_count ∙ rw (h, Swept-filled v bs);
    }

    After-filled :
        has_free w.cells b ≡ false
        → After bs (file_block I (record w { cells = cells }) b false) w'
        → After (b ∷ bs) w w'
    unfolding file_block
    After-filled h a = record {
      lines = Swept-trans v a.lines;
      usable_items = a.usable_items ∙ rw (h, Swept-partial v bs);
      used_items = a.used_items;
      live_items = a.live_items ∙ rw (h, Swept-filled v bs);
      usable_count = a.usable_count ∙ rw (h, Swept-partial v bs);
      full_count = a.full_count ∙ rw (h, Swept-filled v bs) (omega arith);
    }

    pub After-cons :
        After bs (file_block I (record w { cells = cells }) b (has_free w.cells b)) w'
        → After (b ∷ bs) w w'
    After-cons a = elim (Bool-cases (has_free w.cells b)) [
      | inl some_free ↦ After-partial some_free (rw some_free at a)
      | inr none_free ↦ After-filled none_free (rw none_free at a)
    ]
