-- ===== src/Immix/Space/Sweep/Total.antt =====
-- `sweep` as a whole: it ends, and what it returns.
use Prim.Native.Nat.{ℕ, suc, ◌+◌}
use mathlib.Core.Path.{◌≡◌, refl, sym, ◌∙◌}
use mathlib.Core.Logic.{◌≢◌}
use mathlib.Core.List.{List, [], ◌∷◌, ◌++◌, map, foldl, reverse, append_assoc, append-nil}
use native.Mathlib.Omega.{arith}
use immix_rust.Prelude.{length, ok, err, panicked}
use immix_rust.Crossbeam.{Injector}
use immix_rust.Immix.Sizes.{usable, full}
use immix_rust.Immix.Block.{ImmixBlock, set_state}
use immix_rust.Immix.LineMark.{LineMark}
use immix_rust.Immix.Space.{ImmixSpace}
use immix_rust.Immix.Space.Sweep.{Sweeping, sweep_loop, sweeping, sweep}
use immix_rust.Immix.Space.Sweep.Lines.{Swept}
use immix_rust.Immix.Space.Sweep.Blocks.{AllFit, covered, partial, filled, After}
use immix_rust.Immix.Space.Sweep.Loop.{sweep_loop_lem}

-- Every block is filed on one side or the other.
length-partial-filled :
    (cells : List LineMark) (bs : List ImmixBlock)
    → length (partial cells bs) + length (filled cells bs) ≡ length bs
length-partial-filled cells [] = refl
length-partial-filled cells (b ∷ bs) = ground (arith, length-partial-filled cells bs)

module _ (I : Injector ImmixBlock) where
  items-foldl-push :
      (bs : List ImmixBlock) (q : I.Queue) → I.items (foldl I.push q bs) ≡ I.items q ++ bs
  items-foldl-push [] q = sym (append-nil (I.items q))
  items-foldl-push (b ∷ bs) q =
      items-foldl-push bs (I.push q b)
      ∙ rw (I.items-push q b) (append_assoc (I.items q) (b ∷ []) bs)

  -- The lines and queues after a sweep, against those before it.
  pub record SweptSpace (s s' : ImmixSpace I) : Type 0 where
    pub lines :
        Swept (covered (I.items s.used_blocks)) s.line_mark_table.cells s'.line_mark_table.cells
    pub usable_items :
        I.items s'.usable_blocks
        ≡ I.items s.usable_blocks
          ++ map (set_state usable) (partial s.line_mark_table.cells (I.items s.used_blocks))
    pub used_items :
        I.items s'.used_blocks
        ≡ reverse (map (set_state full) (filled s.line_mark_table.cells (I.items s.used_blocks)))
    pub table : s'.line_mark_table ≡ record s.line_mark_table { cells = s'.line_mark_table.cells }
    pub rest :
        (s'.start ≡ s.start)
        × (s'.end ≡ s.end)
        × (s'.alloc_map ≡ s.alloc_map)
        × (s'.trace_map ≡ s.trace_map)
        × (s'.total_blocks ≡ s.total_blocks)

  -- `sweep` behind its loop.
  abbrev pub swept_space : ImmixSpace I → Sweeping I → ImmixSpace I
  swept_space s w = record s {
    line_mark_table = record s.line_mark_table { cells = w.cells };
    usable_blocks = w.usable_queue;
    used_blocks = foldl I.push w.used_queue w.live_blocks;
  }

  pub swept_space-SweptSpace :
      (s : ImmixSpace I) (w : Sweeping I)
      → After I (I.items s.used_blocks) (sweeping I s) w
      → SweptSpace s (swept_space s w)
  swept_space-SweptSpace s w a = record {
    lines = a.lines;
    usable_items = a.usable_items;
    used_items = items-foldl-push w.live_blocks w.used_queue ∙ rw a.used_items a.live_items;
    table = refl;
    rest = (refl, refl, refl, refl, refl);
  }

  pub sweep-of_room :
      (fuel : ℕ) (s : ImmixSpace I) (w : Sweeping I)
      → sweep_loop I fuel (sweeping I s) ≡ ok w
      → w.full_blocks ≢ s.total_blocks
      → sweep I fuel s ≡ ok (swept_space s w)
  unfolding sweep
  sweep-of_room fuel s w run room = rw run (ground arith)

  pub sweep-of_full :
      (fuel : ℕ) (s : ImmixSpace I) (w : Sweeping I)
      → sweep_loop I fuel (sweeping I s) ≡ ok w
      → w.full_blocks ≡ s.total_blocks
      → sweep I fuel s ≡ err panicked
  unfolding sweep
  sweep-of_full fuel s w run none_left = rw run (ground arith)

  -- If the slices of all used blocks lie inside the line mark table, and not as many blocks are full
  -- as the space has, `sweep` ends and returns: it frees every line of a used block that is not live
  -- and no other line; the used blocks with such a line become usable, behind those that were; the
  -- full ones stay used, in reverse order; and nothing else of the space changes.
  pub sweep-SweptSpace :
      (s : ImmixSpace I)
      → AllFit s.line_mark_table.cells (I.items s.used_blocks)
      → length (filled s.line_mark_table.cells (I.items s.used_blocks)) ≢ s.total_blocks
      → (fuel : ℕ) × (s' : ImmixSpace I) × (sweep I fuel s ≡ ok s') × SweptSpace s s'
  sweep-SweptSpace s fit room =
      let (fuel, w, run, a) =
        sweep_loop_lem I (I.items s.used_blocks) (suc (I.retries s.used_blocks)) (sweeping I s) refl
          (omega arith) fit in
      (
        fuel,
        swept_space s w,
        sweep-of_room fuel s w run (λ e. room (omega (arith, a.full_count, e))),
        swept_space-SweptSpace s w a,
      )

  -- If the slices of all used blocks lie inside the line mark table, and as many blocks are full as
  -- the space has, `sweep` panics.
  pub sweep-panicked :
      (s : ImmixSpace I)
      → AllFit s.line_mark_table.cells (I.items s.used_blocks)
      → length (filled s.line_mark_table.cells (I.items s.used_blocks)) ≡ s.total_blocks
      → (fuel : ℕ) × (sweep I fuel s ≡ err panicked)
  sweep-panicked s fit none_left =
      let (fuel, w, run, a) =
        sweep_loop_lem I (I.items s.used_blocks) (suc (I.retries s.used_blocks)) (sweeping I s) refl
          (omega arith) fit in
      (fuel, sweep-of_full fuel s w run (omega (arith, a.full_count)))

  -- If the slices of all used blocks lie inside the line mark table, the loop of `sweep` ends, and
  -- its two counts add up to the number of blocks that were used: the sum that the debug assertion
  -- compares with `total_blocks` leaves out the blocks that no mutator had taken.
  pub sweep_loop-counts :
      (s : ImmixSpace I)
      → AllFit s.line_mark_table.cells (I.items s.used_blocks)
      → (fuel : ℕ) × (w : Sweeping I) × (sweep_loop I fuel (sweeping I s) ≡ ok w)
        × (w.full_blocks + w.usable_blocks ≡ length (I.items s.used_blocks))
  sweep_loop-counts s fit =
      let cells = s.line_mark_table.cells in
      let (fuel, w, run, a) =
        sweep_loop_lem I (I.items s.used_blocks) (suc (I.retries s.used_blocks)) (sweeping I s) refl
          (omega arith) fit in
      (
        fuel,
        w,
        run,
        omega (
          arith,
          a.full_count,
          a.usable_count,
          length-partial-filled cells (I.items s.used_blocks),
        ),
      )
