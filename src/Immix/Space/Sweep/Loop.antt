-- ===== src/Immix/Space/Sweep/Loop.antt =====
-- The loop of `sweep` over the used blocks: it ends, and what it makes of its variables.
use Prim.Native.Nat.{ℕ, zero, suc, ◌<◌}
use mathlib.Core.Path.{◌≡◌, refl, sym, ◌∙◌}
use mathlib.Core.Logic.{inl, inr}
use mathlib.Core.Bool.{Bool, true, false}
use mathlib.Core.List.{List, [], ◌∷◌, append-nil}
use native.Mathlib.Omega.{arith}
use immix_rust.Prelude.{ok, ◌>>=◌}
use immix_rust.Crossbeam.{Injector, steal-cases, empty, success, retry}
use immix_rust.Immix.Block.{ImmixBlock}
use immix_rust.Immix.LineMark.{LineMark}
use immix_rust.Immix.Space.Sweep.{Sweeping, file_block, sweep_block, sweep_loop}
use immix_rust.Immix.Space.Sweep.Lines.{Swept}
use immix_rust.Immix.Space.Sweep.Blocks.{
  AllFit, covers, has_free, After, After-cons, sweep_block_lem, Swept-AllFit,
}

module _ (I : Injector ImmixBlock) where
  file_block-keeps :
      (w : Sweeping I) (b : ImmixBlock) (has : Bool)
      → ((file_block I w b has).cells ≡ w.cells)
        × ((file_block I w b has).used_queue ≡ w.used_queue)
  unfolding file_block
  file_block-keeps w b true = (refl, refl)
  file_block-keeps w b false = (refl, refl)

  -- From the round on that steals `w.used_queue`, what the loop comes to.
  abbrev pub Loops : List ImmixBlock → Sweeping I → Type 0
  Loops bs w = (fuel : ℕ) × (w' : Sweeping I) × (sweep_loop I fuel w ≡ ok w') × After I bs w w'

  pub sweep_loop-empty :
      (fuel : ℕ) (w : Sweeping I) (q : I.Queue)
      → I.steal w.used_queue ≡ (empty, q)
      → sweep_loop I (suc fuel) w ≡ ok (record w { used_queue = q })
  unfolding sweep_loop
  sweep_loop-empty fuel w q e = ground arith

  loop-empty : (w : Sweeping I) (q : I.Queue) → I.steal w.used_queue ≡ (empty, q) → Loops [] w
  loop-empty w q e = (
    1,
    record w { used_queue = q },
    sweep_loop-empty 0 w q e,
    record {
      lines = record { size = refl; at = λ j. refl };
      usable_items = sym (append-nil (I.items w.usable_queue));
      used_items = (I.steal-empty w.used_queue q e).1;
      live_items = refl;
      usable_count = omega arith;
      full_count = omega arith;
    },
  )

  pub sweep_loop-retry :
      (fuel : ℕ) (w : Sweeping I) (q : I.Queue)
      → I.steal w.used_queue ≡ (retry, q)
      → sweep_loop I (suc fuel) w ≡ sweep_loop I fuel (record w { used_queue = q })
  unfolding sweep_loop
  sweep_loop-retry fuel w q e = ground arith

  loop-retry :
      (bs : List ImmixBlock) (w : Sweeping I) (q : I.Queue)
      → I.steal w.used_queue ≡ (retry, q)
      → Loops bs (record w { used_queue = q })
      → Loops bs w
  loop-retry bs w q e (fuel, w', run, a) = (
    suc fuel,
    w',
    sweep_loop-retry fuel w q e ∙ run,
    record {
      lines = a.lines;
      usable_items = a.usable_items;
      used_items = a.used_items;
      live_items = a.live_items;
      usable_count = a.usable_count;
      full_count = a.full_count;
    },
  )

  pub sweep_loop-success :
      (fuel : ℕ) (w : Sweeping I) (b : ImmixBlock) (q : I.Queue)
      → I.steal w.used_queue ≡ (success b, q)
      → sweep_loop I (suc fuel) w
        ≡ (sweep_block I (record w { used_queue = q }) b >>= sweep_loop I fuel)
  unfolding sweep_loop
  sweep_loop-success fuel w b q e = ground arith

  loop-success :
      (b : ImmixBlock) (bs : List ImmixBlock) (w : Sweeping I) (q : I.Queue) (cells : List LineMark)
      → I.steal w.used_queue ≡ (success b, q)
      → sweep_block I (record w { used_queue = q }) b
        ≡ ok (file_block I (record w { cells = cells; used_queue = q }) b (has_free w.cells b))
      → Swept (covers b) w.cells cells
      → Loops bs (file_block I (record w { cells = cells; used_queue = q }) b (has_free w.cells b))
      → Loops (b ∷ bs) w
  loop-success b bs w q cells e run v (fuel, w', rest, a) =
      let a' = After-cons I b bs (record w { used_queue = q }) w' cells v a in
      (
        suc fuel,
        w',
        sweep_loop-success fuel w b q e ∙ rw run rest,
        record {
          lines = a'.lines;
          usable_items = a'.usable_items;
          used_items = a'.used_items;
          live_items = a'.live_items;
          usable_count = a'.usable_count;
          full_count = a'.full_count;
        },
      )

  pub sweep_loop_lem :
      (bs : List ImmixBlock) (n : ℕ) (w : Sweeping I)
      → I.items w.used_queue ≡ bs
      → I.retries w.used_queue < n
      → AllFit w.cells bs
      → Loops bs w
  sweep_loop_lem bs zero w e r fit = elim r [ ]
  sweep_loop_lem [] (suc n) w e r fit = elim (steal-cases I w.used_queue) [
    | inl (q, s) ↦ loop-empty w q s
    | inr (inl (a, q, s)) ↦ cc (I.steal-success w.used_queue q a s)
    | inr (inr (q, s)) ↦
        let (same, fewer) = I.steal-retry w.used_queue q s in
        loop-retry [] w q s
          (sweep_loop_lem [] n (record w { used_queue = q }) (same ∙ e) (omega arith) fit)
  ]
  sweep_loop_lem (b ∷ bs) (suc n) w e r fit = elim (steal-cases I w.used_queue) [
    | inl (q, s) ↦ cc ((I.steal-empty w.used_queue q s).0)
    | inr (inl (a, q, s)) ↦
        let took : a ∷ I.items q ≡ b ∷ bs = sym (I.steal-success w.used_queue q a s) ∙ e in
        let first : a ≡ b = cc in
        let others : I.items q ≡ bs = cc in
        let (cells, run, v) = sweep_block_lem I (record w { used_queue = q }) b fit.0 in
        let next = record w { cells = cells; used_queue = q } in
        let (same_cells, same_queue) = file_block-keeps next b (has_free w.cells b) in
        loop-success b bs w q cells (rw first at s) run v (
          sweep_loop_lem bs (suc (I.retries q)) (file_block I next b (has_free w.cells b))
            (rw same_queue others) (rw same_queue (omega arith))
            (rw same_cells (Swept-AllFit v bs fit.1)))
    | inr (inr (q, s)) ↦
        let (same, fewer) = I.steal-retry w.used_queue q s in
        loop-retry (b ∷ bs) w q s
          (sweep_loop_lem (b ∷ bs) n (record w { used_queue = q }) (same ∙ e) (omega arith) fit)
  ]
