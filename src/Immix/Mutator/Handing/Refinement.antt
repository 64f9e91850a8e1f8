-- ===== src/Immix/Mutator/Handing/Refinement.antt =====
-- src/heap/immix/immix_mutator.rs: `alloc` implements the allocator that only remembers what it has
-- handed out.
use Prim.Native.Nat.{ℕ, ◌+◌, ◌-◌, ◌*◌, ◌/◌, ◌^◌, ◌≤◌, ◌<◌}
use mathlib.Core.Path.{◌≡◌, refl, sym, ap, subst, ◌∙◌}
use mathlib.Core.Logic.{◌⊎◌, inl, inr}
use mathlib.Core.List.{List, ◌∷◌}
use mathlib.Core.Option.{some}
use native.Mathlib.Omega.{arith}
use native.Mathlib.Decide.{dec_lt}
use immix_rust.Prelude.{All, All-map, Outcome, ok, Ensures, Ensures-ok, Bool-cases, Option-cases}
use immix_rust.Common.Address.{Address, plus, align_up}
use immix_rust.Crossbeam.{Injector}
use immix_rust.Immix.Sizes.{bytes_in_line}
use immix_rust.Immix.Block.{ImmixBlock}
use immix_rust.Immix.LineMark.{free, fresh_alloc}
use immix_rust.Immix.Space.{return_used_block}
use immix_rust.Immix.Space.Sweep.Lines.{within}
use immix_rust.Immix.Mutator.{Layout, Heap, return_block, take_block, alloc}
use immix_rust.Immix.Mutator.Invariant.{idle, holding, IsBlockOf, IsHeld, IsHeap}
use immix_rust.Immix.Mutator.TakeHole.{TookHole}
use immix_rust.Immix.Mutator.Allocation.{IsLayout, align_up-layout}
use immix_rust.Immix.Mutator.Soundness.{Sound}
use immix_rust.Immix.Mutator.Parts.{IsReady, alloc-Ensures}
use immix_rust.Immix.Mutator.Paths.{fast_path}
use immix_rust.Immix.Mutator.Handing.{Range, Disjoint, Hands, hand, Owns, Refines}

module _ (I : Injector ImmixBlock) where
  Owns-moves :
      (h h' : Heap I)
      → h'.local.cursor ≡ h.local.cursor
      → h'.local.limit ≡ h.local.limit
      → h'.space.start ≡ h.space.start
      → h'.space.line_mark_table.cells ≡ h.space.line_mark_table.cells
      → (a : Range) → Owns I h a
      → Owns I h' a
  Owns-moves h h' c l s t a o = record {
    some_byte = o.some_byte;
    outside = omega (arith, o.outside);
    taken = λ j lo hi. rw t (o.taken j (omega arith) (omega arith));
  }

  return_block-keeps :
      (h : Heap I)
      → ((return_block I h).local.cursor ≡ h.local.cursor)
        × ((return_block I h).local.limit ≡ h.local.limit)
        × ((return_block I h).space.start ≡ h.space.start)
        × ((return_block I h).space.line_mark_table.cells ≡ h.space.line_mark_table.cells)
  unfolding return_block return_used_block
  return_block-keeps h = elim (Option-cases h.local.block) [
    | inl idle_now ↦ rw idle_now (refl, refl, refl, refl)
    | inr (b, held) ↦ rw held (refl, refl, refl, refl)
  ]

  return_block-Owns : (h : Heap I) (a : Range) → Owns I h a → Owns I (return_block I h) a
  return_block-Owns h =
      let (c, l, s, t) = return_block-keeps h in Owns-moves h (return_block I h) c l s t

  take_block-Owns :
      (h : Heap I) (b : ImmixBlock) (a : Range) → Owns I h a → Owns I (take_block I h b) a
  unfolding take_block
  take_block-Owns h b a o = record {
    some_byte = o.some_byte;
    outside = omega arith;
    taken = o.taken;
  }

  module _ (h h' : Heap I) (b : ImmixBlock) (i r : ℕ) (place : IsBlockOf I h.space b)
      (t : TookHole I h h' b i r) (a : Range) (o : Owns I h a) where
    -- No line of the hole holds a byte of `a`.
    elsewhere :
        (l : ℕ)
        → i ≤ l
        → l < r
        → a.start < b.start + (l + 1) * bytes_in_line
        → b.start + l * bytes_in_line < a.start + a.size
        → ⊥
    elsewhere l le lt lo hi =
        o.taken (b.line_mark_table.base + l) (omega (arith, place.place))
          (omega (arith, place.place)) (t.run.run l le lt)

    hole_outside :
        (a.start + a.size ≤ b.start + i * bytes_in_line)
        ⊎ (b.start + r * bytes_in_line ≤ a.start)
        ⊎ (b.start + r * bytes_in_line ≤ b.start + i * bytes_in_line)
    hole_outside = elim (dec_lt (b.start + i * bytes_in_line) (a.start + a.size)) [
      | no before ↦ inl (omega arith)
      | yes some_end ↦ elim (dec_lt a.start (b.start + r * bytes_in_line)) [
        | no behind ↦ inr (inl (omega arith))
        | yes some_start ↦ elim (dec_lt i r) [
          | no empty ↦ inr (inr (omega arith))
          | yes lines ↦ elim (dec_lt a.start (b.start + i * bytes_in_line)) [
            | yes early ↦ absurd (elsewhere i (omega arith) lines (omega arith) some_end)
            | no late ↦
                let l = (a.start - b.start) / bytes_in_line in
                absurd (
                  elsewhere l (omega arith) (omega arith) (omega arith)
                    (omega (arith, o.some_byte)))
          ]
        ]
      ]
    ]

    hole_start : h'.space.start ≡ h.space.start
    hole_start = ap (λ s. s.start) t.space

    take_hole-Owns : Owns I h' a
    take_hole-Owns = record {
      some_byte = o.some_byte;
      outside = rw (t.cursor, t.limit) hole_outside;
      taken = λ j lo hi e. elim (Bool-cases (within (b.line_mark_table.base + i) (r - i) j)) [
        | inl inside ↦ ground (arith, t.lines.at j)
        | inr outside ↦
            o.taken j (omega (arith, hole_start)) (omega (arith, hole_start))
              (ground (arith, t.lines.at j))
      ];
    }

  not_free : some fresh_alloc ≡ some free → ⊥
  not_free e = cc

  -- What the fast path hands out is disjoint from `a`, and both are the mutator's from then on.
  module _ (layout : Layout) (lay : IsLayout layout) (h : Heap I) (ready : IsReady I h)
      (fits : plus (align_up h.local.cursor layout.align) layout.size ≤ h.local.limit) where
    abbrev addr : Address
    addr = align_up h.local.cursor layout.align

    abbrev next : Heap I
    next = record h { local = record h.local { cursor = plus addr layout.size } }

    abbrev object : Range
    object = record { start = addr; size = layout.size }

    sound : Sound I layout (addr, next)
    sound = fast_path I layout lay h ready fits

    cursor_moves : (h.local.cursor ≤ addr) × (addr + layout.size ≡ plus addr layout.size)
    cursor_moves =
        let (whole, above, near) = align_up-layout h.local.cursor layout lay (low ready) in
        (above, sound.object.end)
      where
        low : IsReady I h → h.local.cursor < 2 ^ 63
        low (v, idle c l e line) = omega arith
        low (v, holding b hole) =
            let place = subst (IsHeld I h.space) hole.held v.held_ok in
            omega (arith, hole.high, hole.limit, hole.line, place.high)

    object-Owns : Owns I next object
    object-Owns = record {
      some_byte = lay.size_pos;
      outside = inl (omega (arith, cursor_moves.1));
      taken = λ j lo hi e.
          let block = sound.block in
          let l = j - block.line_mark_table.base in
          let same : block.line_mark_table.base + l ≡ j =
            omega (arith, sound.object.start, sound.place.place) in
          let mark =
            sound.object.fresh l
              (omega (
                arith, same, sound.object.hole.limit, sound.object.hole.high, sound.object.end,
                sound.place.place,
              ))
              (omega (arith, same, sound.place.place)) in
          not_free (sym (rw same at mark) ∙ e);
    }

    others-Owns : (a : Range) → Owns I h a → Owns I next a
    others-Owns a o = record {
      some_byte = o.some_byte;
      outside = omega (arith, o.outside, cursor_moves);
      taken = o.taken;
    }

    object-Disjoint : (a : Range) → Owns I h a → Disjoint object a
    object-Disjoint a o = omega (arith, o.outside, cursor_moves, lay.size_pos)

  fast-Refines :
      (layout : Layout) (lay : IsLayout layout) (h : Heap I) (ready : IsReady I h)
      (handed : List Range)
      → All (Owns I h) handed
      → (fits : plus (align_up h.local.cursor layout.align) layout.size ≤ h.local.limit)
      → (handed' : List Range) × Hands layout (align_up h.local.cursor layout.align) handed handed'
        × Refines I handed' (next layout lay h ready fits)
  fast-Refines layout lay h ready handed owned fits = (
    object layout lay h ready fits ∷ handed,
    hand (sound layout lay h ready fits).object.aligned (
        All-map (Owns I h) (Disjoint (object layout lay h ready fits))
          (object-Disjoint layout lay h ready fits) handed owned),
    record {
      ready = (
        (sound layout lay h ready fits).heap,
        holding (sound layout lay h ready fits).block (sound layout lay h ready fits).object.hole,
      );
      owned = (
        object-Owns layout lay h ready fits,
        All-map (Owns I h) (Owns I (next layout lay h ready fits))
            (others-Owns layout lay h ready fits) handed owned,
      );
    },
  )

-- `alloc` implements the abstract allocator: if the barrier keeps the blocks well formed and what was
-- handed out, then whenever `alloc` returns, on whatever path, the abstract allocator can hand out the
-- same object, which is aligned and disjoint from all objects that were handed out before, and the heap
-- stands again for what it has handed out. The object is not empty.
pub alloc-Hands :
    (I : Injector ImmixBlock) (sync_barrier : Heap I → Outcome (Heap I)) (handed : List Range)
    → ((h : Heap I)
        → IsHeap I h × All (Owns I h) handed
        → Ensures (λ h'. IsHeap I h' × All (Owns I h') handed) (sync_barrier h))
    → (layout : Layout) → IsLayout layout
    → (fuel : ℕ) (h : Heap I) → Refines I handed h
    → (addr : Address) (h' : Heap I) → alloc I sync_barrier fuel h layout ≡ ok (addr, h')
    → (handed' : List Range) × Hands layout addr handed handed' × Refines I handed' h'
alloc-Hands I sync_barrier handed barrier_ok layout lay fuel h v addr h' e =
    Ensures-ok P (alloc I sync_barrier fuel h layout) (addr, h')
      (alloc-Ensures I sync_barrier layout (λ h. All (Owns I h) handed) P
        (record {
          barrier = barrier_ok;
          return_block = λ h k.
              All-map (Owns I h) (Owns I (return_block I h)) (return_block-Owns I h) handed k;
          next_block = λ h s m same k.
              let h' = record h { space = s; mutators = m } in
              All-map (Owns I h) (Owns I h')
                (Owns-moves I h h' refl refl (ap (λ s. s.start) same)
                  (ap (λ s. s.line_mark_table.cells) same))
                handed k;
          take_block = λ h b k.
              All-map (Owns I h) (Owns I (take_block I h b)) (take_block-Owns I h b) handed k;
          take_hole = λ h h' b i r place t k.
              All-map (Owns I h) (Owns I h') (take_hole-Owns I h h' b i r place t) handed k;
          fast = λ h ready k fits. fast-Refines I layout lay h ready handed k fits;
        })
        fuel h v.ready v.owned)
      e
  where
    P : Address × Heap I → Type 0
    P r = (handed' : List Range) × Hands layout r.0 handed handed' × Refines I handed' r.1
