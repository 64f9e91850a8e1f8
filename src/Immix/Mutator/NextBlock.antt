-- ===== src/Immix/Mutator/NextBlock.antt =====
-- src/heap/immix/immix_mutator.rs: the block that the queue gives to a mutator.
use Prim.Native.Nat.{ℕ}
use mathlib.Core.Path.{◌≡◌, refl, ap}
use mathlib.Core.List.{◌∷◌}
use mathlib.Core.Option.{Option, none, some}
use immix_rust.Prelude.{length, All, Ensures, Ensures-of_ok}
use immix_rust.Crossbeam.{Injector}
use immix_rust.Immix.Globals.{Mutators}
use immix_rust.Immix.Block.{ImmixBlock}
use immix_rust.Immix.Space.{ImmixSpace, get_next_usable_block}
use immix_rust.Immix.Space.Next.{Took, Took-of_next}
use immix_rust.Immix.Mutator.{Heap}
use immix_rust.Immix.Mutator.Invariant.{IsBlockOf, IsHeld, IsHeap}
use immix_rust.Immix.Mutator.Soundness.{blocks_move, IsHeld-moves}

module _ (I : Injector ImmixBlock) where
  -- The block that the queue gives is one of the space, and so are the others.
  abbrev pub TookBlock : Heap I → Option ImmixBlock × ImmixSpace I × Mutators → Type 0
  TookBlock h r =
      IsHeap I (record h { space = r.1; mutators = r.2 })
      × IsHeld I r.1 r.0
      × (r.1 ≡ record h.space { usable_blocks = r.1.usable_blocks })

  Took-TookBlock :
      (h : Heap I) (o : Option ImmixBlock) (s : ImmixSpace I) (m : Mutators)
      → IsHeap I h
      → Took I h.space h.mutators o s m
      → TookBlock h (o, s, m)
  Took-TookBlock h none s m v (before, after, _, same) =
      let start = ap (λ s. s.start) same in
      let size = ap (λ s. length s.line_mark_table.cells) same in
      (
        record {
          usable_ok = rw after tt;
          used_ok = blocks_move I _ _ _ _ _ _ start size (ap (λ s. s.used_blocks) same) v.used_ok;
          held_ok = IsHeld-moves I h.space s h.local.block h.local.block start size refl v.held_ok;
        },
        tt,
        same,
      )
  Took-TookBlock h (some b) s m v (before, _, same) =
      let start = ap (λ s. s.start) same in
      let size = ap (λ s. length s.line_mark_table.cells) same in
      let all : All (IsBlockOf I h.space) (b ∷ I.items s.usable_blocks) =
        rw before at v.usable_ok in
      let ours = record s { used_blocks = h.space.used_blocks } in
      (
        record {
          usable_ok = blocks_move I _ _ _ _ s.usable_blocks s.usable_blocks start size refl all.1;
          used_ok = blocks_move I _ _ _ _ _ _ start size (ap (λ s. s.used_blocks) same) v.used_ok;
          held_ok = IsHeld-moves I h.space s h.local.block h.local.block start size refl v.held_ok;
        },
        IsHeld-moves I h.space s (some b) (some b) start size refl all.0,
        same,
      )

  pub next-TookBlock :
      (fuel : ℕ) (h : Heap I)
      → IsHeap I h
      → Ensures (TookBlock h) (get_next_usable_block I fuel h.space h.mutators)
  next-TookBlock fuel h v =
      Ensures-of_ok (TookBlock h) (get_next_usable_block I fuel h.space h.mutators)
        λ r e. Took-TookBlock h r.0 r.1 r.2 v (Took-of_next I fuel h.space h.mutators r.0 r.1 r.2 e)
