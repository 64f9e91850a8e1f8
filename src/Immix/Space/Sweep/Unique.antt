-- ===== src/Immix/Space/Sweep/Unique.antt =====
-- `sweep` returns the same with whatever fuel it returns.
use Prim.Native.Nat.{ℕ, zero, suc}
use mathlib.Core.Path.{◌≡◌, refl, sym, ap, subst, ◌∙◌}
use mathlib.Core.Logic.{◌⊎◌, inl, inr}
use native.Mathlib.Omega.{arith}
use native.Mathlib.Decide.{ℕ_discrete}
use immix_rust.Prelude.{ok, err, panicked, out_of_fuel, length, >>=-eq-ok}
use immix_rust.Crossbeam.{Injector, steal-cases}
use immix_rust.Immix.Block.{ImmixBlock}
use immix_rust.Immix.Space.{ImmixSpace}
use immix_rust.Immix.Space.Sweep.{Sweeping, sweep_loop, sweeping, sweep}
use immix_rust.Immix.Space.Sweep.Blocks.{AllFit, filled}
use immix_rust.Immix.Space.Sweep.Loop.{
  sweep_loop-empty, sweep_loop-retry, sweep_loop-success, sweep_loop_lem,
}
use immix_rust.Immix.Space.Sweep.Total.{
  SweptSpace, swept_space, swept_space-SweptSpace, sweep-of_full, sweep-of_room,
}

module _ (I : Injector ImmixBlock) where
  sweep_loop-zero : (w : Sweeping I) {v : Sweeping I} → sweep_loop I zero w ≡ ok v → ⊥
  unfolding sweep_loop
  sweep_loop-zero w e = cc

  no_fuel : (w : Sweeping I) → sweep_loop I zero w ≡ err out_of_fuel
  unfolding sweep_loop
  no_fuel w = refl

  -- With other fuel the loop comes to the same, or runs out of fuel.
  abbrev Agrees : ℕ → Sweeping I → Sweeping I → Type 0
  Agrees n w v = (sweep_loop I n w ≡ ok v) ⊎ (sweep_loop I n w ≡ err out_of_fuel)

  Agrees-step :
      (n n' : ℕ) (w w' : Sweeping I) {v : Sweeping I}
      → sweep_loop I n w ≡ sweep_loop I n' w'
      → Agrees n' w' v
      → Agrees n w v
  Agrees-step n n' w w' e (inl f) = inl (e ∙ f)
  Agrees-step n n' w w' e (inr f) = inr (e ∙ f)

  sweep_loop-Agrees :
      (n m : ℕ) (w : Sweeping I) {v : Sweeping I} → sweep_loop I m w ≡ ok v → Agrees n w v
  sweep_loop-Agrees zero m w f = inr (no_fuel w)
  sweep_loop-Agrees (suc n) zero w f = absurd (sweep_loop-zero w f)
  sweep_loop-Agrees (suc n) (suc m) w f = elim (steal-cases I w.used_queue) [
    | inl (q, s) ↦ inl (sweep_loop-empty I n w q s ∙ sym (sweep_loop-empty I m w q s) ∙ f)
    | inr (inl (b, q, s)) ↦
        let (u, first, rest) =
          >>=-eq-ok _ (sweep_loop I m) (sym (sweep_loop-success I m w b q s) ∙ f) in
        Agrees-step (suc n) n w u (sweep_loop-success I n w b q s ∙ rw first refl)
          (sweep_loop-Agrees n m u rest)
    | inr (inr (q, s)) ↦
        Agrees-step (suc n) n w (record w { used_queue = q }) (sweep_loop-retry I n w q s)
          (sweep_loop-Agrees n m (record w { used_queue = q })
            (sym (sweep_loop-retry I m w q s) ∙ f))
  ]

  sweep_loop_unique :
      (n m : ℕ) (w : Sweeping I) {v v' : Sweeping I}
      → sweep_loop I n w ≡ ok v
      → sweep_loop I m w ≡ ok v'
      → v ≡ v'
  sweep_loop_unique n m w e f = elim (sweep_loop-Agrees n m w f) [
    | inl g ↦ cc (e, g)
    | inr g ↦ cc (e, g)
  ]

  sweep-ran :
      (n : ℕ) (s : ImmixSpace I) {s' : ImmixSpace I}
      → sweep I n s ≡ ok s'
      → (v : Sweeping I) × (sweep_loop I n (sweeping I s) ≡ ok v)
  unfolding sweep
  sweep-ran n s e = let (v, run, rest) = >>=-eq-ok (sweep_loop I n (sweeping I s)) _ e in (v, run)

  -- If the slices of all used blocks lie inside the line mark table, a `sweep` that returns frees
  -- every line of a used block that is not live, files the blocks, and changes nothing else,
  -- whatever fuel it ran with.
  pub sweep-ok_SweptSpace :
      (n : ℕ) (s s' : ImmixSpace I)
      → AllFit s.line_mark_table.cells (I.items s.used_blocks)
      → sweep I n s ≡ ok s'
      → SweptSpace I s s'
  sweep-ok_SweptSpace n s s' fit e =
      let (fuel, w, run, a) =
        sweep_loop_lem I (I.items s.used_blocks) (suc (I.retries s.used_blocks)) (sweeping I s) refl
          (omega arith) fit in
      let (v, ran) = sweep-ran n s e in
      let same : v ≡ w = sweep_loop_unique n fuel (sweeping I s) ran run in
      let ran_w : sweep_loop I n (sweeping I s) ≡ ok w = ran ∙ ap ok same in
      elim (ℕ_discrete w.full_blocks s.total_blocks) [
        | yes full ↦ cc (sweep-of_full I n s w ran_w full)
        | no room ↦
            let found : swept_space I s w ≡ s' = cc (sweep-of_room I n s w ran_w room) in
            subst (SweptSpace I s) found (swept_space-SweptSpace I s w a)
      ]

  sweep-no_fuel :
      (n : ℕ) (s : ImmixSpace I)
      → sweep_loop I n (sweeping I s) ≡ err out_of_fuel
      → sweep I n s ≡ err out_of_fuel
  unfolding sweep
  sweep-no_fuel n s e = rw e refl

  -- If the slices of all used blocks lie inside the line mark table, `sweep` panics only where as many
  -- blocks are full as the space has.
  pub sweep-full_of_panicked :
      (n : ℕ) (s : ImmixSpace I)
      → AllFit s.line_mark_table.cells (I.items s.used_blocks)
      → sweep I n s ≡ err panicked
      → length (filled s.line_mark_table.cells (I.items s.used_blocks)) ≡ s.total_blocks
  sweep-full_of_panicked n s fit e =
      let (fuel, w, run, a) =
        sweep_loop_lem I (I.items s.used_blocks) (suc (I.retries s.used_blocks)) (sweeping I s) refl
          (omega arith) fit in
      elim (sweep_loop-Agrees n fuel (sweeping I s) run) [
        | inl ran ↦ elim (ℕ_discrete w.full_blocks s.total_blocks) [
          | yes full ↦ omega (arith, a.full_count, full)
          | no room ↦ cc (sweep-of_room I n s w ran room)
        ]
        | inr out ↦ cc (sweep-no_fuel n s out)
      ]
