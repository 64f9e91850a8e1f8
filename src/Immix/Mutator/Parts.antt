-- ===== src/Immix/Mutator/Parts.antt =====
-- src/heap/immix/immix_mutator.rs: what holds on every path of `alloc`, from what holds of each of its
-- parts.
use Prim.Native.Nat.{ℕ, zero, suc, ◌≤◌, ◌<◌}
use mathlib.Core.Path.{◌≡◌, subst}
use mathlib.Core.Logic.{inl, inr}
use mathlib.Core.Bool.{true, false}
use mathlib.Core.Option.{Option, none, some}
use native.Mathlib.Omega.{arith}
use immix_rust.Prelude.{Outcome, ◌>>=◌, Ensures, Ensures-bind, Bool-cases, leb, ltb, leb→le}
use immix_rust.Common.Address.{Address, plus, align_up}
use immix_rust.Crossbeam.{Injector}
use immix_rust.Immix.Sizes.{lines_in_block}
use immix_rust.Immix.Globals.{Mutators}
use immix_rust.Immix.Block.{ImmixBlock}
use immix_rust.Immix.LineMark.Scan.{IsFreeAt, FirstFree, get_next_available_line-FirstFree}
use immix_rust.Immix.Space.{ImmixSpace, get_next_usable_block}
use immix_rust.Immix.Mutator.{
  Layout, Heap, Alloc, return_block, take_yield, yieldpoint, take_hole, take_block, global_loop,
  alloc_from_global, try_alloc_from_local, alloc,
}
use immix_rust.Immix.Mutator.Invariant.{
  HasHole, IsLocal, idle, holding, IsBlockOf, IsHeld, IsHeap, return_block-IsHeap,
}
use immix_rust.Immix.Mutator.TakeHole.{TookHole, take_hole-TookHole, TookHole-HasHole}
use immix_rust.Immix.Mutator.Soundness.{TookHole-IsHeap, take_block-HasHole, take_block-IsHeap}
use immix_rust.Immix.Mutator.NextBlock.{TookBlock, next-TookBlock}

abbrev pub IsReady : (I : Injector ImmixBlock) → Heap I → Type 0
IsReady I h = IsHeap I h × IsLocal h.local h.space.line_mark_table.cells

module _ (I : Injector ImmixBlock) (sync_barrier : Heap I → Outcome (Heap I)) (layout : Layout)
    (R : Heap I → Type 0) (P : Address × Heap I → Type 0) where
  -- The blocks of the heap are well formed, and `R` holds.
  abbrev pub Good : Heap I → Type 0
  Good h = IsHeap I h × R h

  -- Each part of `alloc` keeps `R`, and the fast path makes `P` of it.
  pub record Keeps : Type 0 where
    pub barrier : (h : Heap I) → Good h → Ensures Good (sync_barrier h)
    pub return_block : (h : Heap I) → R h → R (return_block I h)
    pub next_block :
        (h : Heap I) (s : ImmixSpace I) (m : Mutators)
        → s ≡ record h.space { usable_blocks = s.usable_blocks }
        → R h
        → R (record h { space = s; mutators = m })
    pub take_block : (h : Heap I) (b : ImmixBlock) → R h → R (take_block I h b)
    pub take_hole :
        (h h' : Heap I) (b : ImmixBlock) (i r : ℕ)
        → IsBlockOf I h.space b
        → TookHole I h h' b i r
        → R h
        → R h'
    pub fast :
        (h : Heap I)
        → IsReady I h
        → R h
        → plus (align_up h.local.cursor layout.align) layout.size ≤ h.local.limit
        → P (
          align_up h.local.cursor layout.align,
          record h {
            local = record h.local {
              cursor = plus (align_up h.local.cursor layout.align) layout.size;
            };
          },
        )

  module _ (keeps : Keeps) where
    yieldpoint-Good : (h : Heap I) → Good h → Ensures Good (yieldpoint I sync_barrier h)
    unfolding yieldpoint
    yieldpoint-Good h v = elim (Bool-cases (take_yield I h)) [
      | inl yes_flag ↦ rw yes_flag (keeps.barrier h v)
      | inr no_flag ↦ rw no_flag v
    ]

    module _ (again : Alloc I)
        (sound : (h : Heap I) → IsReady I h → R h → Ensures P (again h layout)) where
      take_block-Ensures :
          (h : Heap I) (b : ImmixBlock)
          → Good h
          → IsBlockOf I h.space b
          → Ensures P (again (take_block I h b) layout)
      unfolding take_block
      take_block-Ensures h b v held =
          sound (take_block I h b)
            (take_block-IsHeap I h b v.0 held, holding b (take_block-HasHole I h b))
            (keeps.take_block h b v.1)

      next_round :
          (fuel : ℕ) (h : Heap I) (o : Option ImmixBlock)
          → Good h
          → IsHeld I h.space o
          → ((h : Heap I) → Good h → Ensures P (global_loop I sync_barrier fuel again h layout))
          → Ensures P (elim o [
            | some b ↦ again (take_block I h b) layout
            | none ↦ global_loop I sync_barrier fuel again h layout
          ])
      next_round fuel h none v held rest = rest h v
      next_round fuel h (some b) v held rest = take_block-Ensures h b v held

      global_loop-Ensures :
          (fuel : ℕ) (h : Heap I)
          → Good h
          → Ensures P (global_loop I sync_barrier fuel again h layout)
      unfolding global_loop
      global_loop-Ensures zero h v = tt
      global_loop-Ensures (suc fuel) h v =
          Ensures-bind Good P (yieldpoint I sync_barrier h) _ (yieldpoint-Good h v) λ h' v'.
            Ensures-bind (TookBlock I h') P (get_next_usable_block I fuel h'.space h'.mutators) _
              (next-TookBlock I fuel h' v'.0)
              λ r t.
                next_round fuel (record h' { space = r.1; mutators = r.2 }) r.0
                  (t.0, keeps.next_block h' r.1 r.2 t.2 v'.1) t.1 (global_loop-Ensures fuel)

      global-Ensures :
          (fuel : ℕ) (h : Heap I)
          → Good h
          → Ensures P (alloc_from_global I sync_barrier fuel again h layout)
      unfolding alloc_from_global
      global-Ensures fuel h v =
          global_loop-Ensures fuel (return_block I h)
            (return_block-IsHeap I h v.0, keeps.return_block h v.1)

      take_hole-Ensures :
          (h : Heap I) (b : ImmixBlock) (i : ℕ)
          → Good h
          → h.local.block ≡ some b
          → i < lines_in_block
          → IsFreeAt h.space.line_mark_table.cells b.line_mark_table i
          → Ensures P (take_hole I h b i >>= λ h'. again h' layout)
      take_hole-Ensures h b i v held lt fr =
          let place = subst (IsHeld I h.space) held v.0.held_ok in
          let (r, h', run, more, t) = take_hole-TookHole I h b i place lt fr in
          rw run (
            sound h'
              (
                TookHole-IsHeap I h h' b i r v.0 t,
                holding b (TookHole-HasHole I h h' b i r held place.whole more t),
              )
              (keeps.take_hole h h' b i r place t v.1))

      -- The search in the block at hand, and what follows on its result.
      search-Ensures :
          (fuel : ℕ) (h : Heap I) (b : ImmixBlock) (o : Option ℕ)
          → Good h
          → h.local.block ≡ some b
          → FirstFree h.space.line_mark_table.cells b.line_mark_table h.local.line o
          → Ensures P (elim o [
            | some next_available_line ↦
                take_hole I h b next_available_line >>= λ h'. again h' layout
            | none ↦ alloc_from_global I sync_barrier fuel again h layout
          ])
      search-Ensures fuel h b none v held first = global-Ensures fuel h v
      search-Ensures fuel h b (some i) v held first =
          let place = subst (IsHeld I h.space) held v.0.held_ok in
          take_hole-Ensures h b i v held (omega (arith, first.below, place.whole)) first.here

      module _ (fuel : ℕ) (h : Heap I) (v : Good h) where
        exhausted-Ensures :
            ltb h.local.line lines_in_block ≡ false
            → Ensures P (try_alloc_from_local I sync_barrier fuel again h layout)
        unfolding try_alloc_from_local
        exhausted-Ensures done = rw done (global-Ensures fuel h v)

        idle-Ensures :
            h.local.line ≡ lines_in_block
            → Ensures P (try_alloc_from_local I sync_barrier fuel again h layout)
        idle-Ensures line = exhausted-Ensures (ground arith)

      holding-Ensures :
          (fuel : ℕ) (h : Heap I) (b : ImmixBlock)
          → Good h
          → HasHole b h.local h.space.line_mark_table.cells
          → ltb h.local.line lines_in_block ≡ true
          → Ensures P (try_alloc_from_local I sync_barrier fuel again h layout)
      unfolding try_alloc_from_local
      holding-Ensures fuel h b v hole more =
          let place = subst (IsHeld I h.space) hole.held v.0.held_ok in
          let (o, run, first) =
            get_next_available_line-FirstFree h.space.line_mark_table.cells b.line_mark_table
              (omega (arith, place.whole, place.inside)) h.local.line in
          rw (more, hole.held, run) (search-Ensures fuel h b o v hole.held first)

      local-Ensures :
          (fuel : ℕ) (h : Heap I)
          → IsReady I h
          → R h
          → Ensures P (try_alloc_from_local I sync_barrier fuel again h layout)
      local-Ensures fuel h (v, idle c l e line) k = idle-Ensures fuel h (v, k) line
      local-Ensures fuel h (v, holding b hole) k =
          elim (Bool-cases (ltb h.local.line lines_in_block)) [
            | inl more ↦ holding-Ensures fuel h b (v, k) hole more
            | inr done ↦ exhausted-Ensures fuel h (v, k) done
          ]

    -- With enough fuel or not, `P` holds of what `alloc` returns.
    pub alloc-Ensures :
        (fuel : ℕ) (h : Heap I) → IsReady I h → R h → Ensures P (alloc I sync_barrier fuel h layout)
    unfolding alloc
    alloc-Ensures zero h v k = tt
    alloc-Ensures (suc fuel) h v k =
        elim (Bool-cases
          (leb (plus (align_up h.local.cursor layout.align) layout.size) h.local.limit)) [
            | inl fast ↦ rw fast (keeps.fast h v k (leb→le _ _ fast))
            | inr slow ↦
                rw slow (local-Ensures (alloc I sync_barrier fuel) (alloc-Ensures fuel) fuel h v k)
          ]
