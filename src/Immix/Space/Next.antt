-- ===== src/Immix/Space/Next.antt =====
-- src/heap/immix/immix_space.rs: what `get_next_usable_block` returns.
use Prim.Native.Nat.{ℕ, zero, suc, ◌<◌}
use mathlib.Core.Path.{◌≡◌, refl, sym, subst, ◌∙◌}
use mathlib.Core.Logic.{inl, inr}
use mathlib.Core.List.{[], ◌∷◌}
use mathlib.Core.Option.{Option, none, some}
use native.Mathlib.Omega.{arith}
use immix_rust.Prelude.{Outcome, ok, err}
use immix_rust.Crossbeam.{Injector, steal-cases, empty, success, retry}
use immix_rust.Immix.Globals.{Mutators, trigger_gc}
use immix_rust.Immix.Block.{ImmixBlock}
use immix_rust.Immix.Space.{ImmixSpace, get_next_usable_block}

module _ (I : Injector ImmixBlock) where
  -- A block is the front of the queue, and nothing else changes; no block means that the queue is
  -- empty, and that every mutator is asked to yield.
  abbrev pub Took : ImmixSpace I → Mutators → Option ImmixBlock → ImmixSpace I → Mutators → Type 0
  Took s m none s' m' =
      (I.items s.usable_blocks ≡ [])
      × (I.items s'.usable_blocks ≡ [])
      × (m' ≡ trigger_gc m)
      × (s' ≡ record s { usable_blocks = s'.usable_blocks })
  Took s m (some b) s' m' =
      (I.items s.usable_blocks ≡ b ∷ I.items s'.usable_blocks)
      × (m' ≡ m)
      × (s' ≡ record s { usable_blocks = s'.usable_blocks })

  module _ (fuel : ℕ) (s : ImmixSpace I) (m : Mutators) (q : I.Queue) where
    next-empty :
        I.steal s.usable_blocks ≡ (empty, q)
        → get_next_usable_block I (suc fuel) s m
          ≡ ok (none, record s { usable_blocks = q }, trigger_gc m)
    unfolding get_next_usable_block
    next-empty e = ground arith

    next-success :
        (b : ImmixBlock)
        → I.steal s.usable_blocks ≡ (success b, q)
        → get_next_usable_block I (suc fuel) s m ≡ ok (some b, record s { usable_blocks = q }, m)
    unfolding get_next_usable_block
    next-success b e = ground arith

    next-retry :
        I.steal s.usable_blocks ≡ (retry, q)
        → get_next_usable_block I (suc fuel) s m
          ≡ get_next_usable_block I fuel (record s { usable_blocks = q }) m
    unfolding get_next_usable_block
    next-retry e = ground arith

  Took-retry :
      (s : ImmixSpace I) (m : Mutators) (q : I.Queue) (o : Option ImmixBlock) (s' : ImmixSpace I)
      (m' : Mutators)
      → I.items q ≡ I.items s.usable_blocks
      → Took (record s { usable_blocks = q }) m o s' m'
      → Took s m o s' m'
  Took-retry s m q none s' m' e t = (sym e ∙ t.0, t.1, t.2, t.3)
  Took-retry s m q (some b) s' m' e t = (sym e ∙ t.0, t.1, t.2)

  abbrev Fits :
      ImmixSpace I → Mutators → Outcome (Option ImmixBlock × ImmixSpace I × Mutators) → Type 0
  Fits s m (ok (o, s', m')) = Took s m o s' m'
  Fits s m (err _) = Unit

  Fits-retry :
      (s : ImmixSpace I) (m : Mutators) (q : I.Queue)
      (r : Outcome (Option ImmixBlock × ImmixSpace I × Mutators))
      → I.items q ≡ I.items s.usable_blocks
      → Fits (record s { usable_blocks = q }) m r
      → Fits s m r
  Fits-retry s m q (ok (o, s', m')) e t = Took-retry s m q o s' m' e t
  Fits-retry s m q (err _) e t = tt

  -- `get_next_usable_block` ends, since the queue does not ask for retries for ever; it returns the
  -- front block of the queue and takes it out, or, if the queue is empty, triggers a collection.
  pub get_next_usable_block-Took :
      (n : ℕ) (s : ImmixSpace I) (m : Mutators)
      → I.retries s.usable_blocks < n
      → (fuel : ℕ) × (o : Option ImmixBlock) × (s' : ImmixSpace I) × (m' : Mutators)
        × (get_next_usable_block I fuel s m ≡ ok (o, s', m'))
        × Took s m o s' m'
  get_next_usable_block-Took zero s m r = elim r [ ]
  get_next_usable_block-Took (suc n) s m r = elim (steal-cases I s.usable_blocks) [
    | inl (q, e) ↦
        let (before, after) = I.steal-empty s.usable_blocks q e in
        (1, none, _, _, next-empty 0 s m q e, (before, after, refl, refl))
    | inr (inl (b, q, e)) ↦ (
      1,
      some b,
      _,
      _,
      next-success 0 s m q b e,
      (I.steal-success s.usable_blocks q b e, refl, refl),
    )
    | inr (inr (q, e)) ↦
        let (same, fewer) = I.steal-retry s.usable_blocks q e in
        let (fuel, o, s', m', run, t) =
          get_next_usable_block-Took n (record s { usable_blocks = q }) m (omega arith) in
        (suc fuel, o, s', m', next-retry fuel s m q e ∙ run, Took-retry s m q o s' m' same t)
  ]

  next-Fits :
      (fuel : ℕ) (s : ImmixSpace I) (m : Mutators) → Fits s m (get_next_usable_block I fuel s m)
  unfolding get_next_usable_block
  next-Fits zero s m = tt
  next-Fits (suc fuel) s m = elim (steal-cases I s.usable_blocks) [
    | inl (q, e) ↦
        let (before, after) = I.steal-empty s.usable_blocks q e in
        subst (Fits s m) (sym (next-empty fuel s m q e)) (before, after, refl, refl)
    | inr (inl (b, q, e)) ↦
        subst (Fits s m) (sym (next-success fuel s m q b e))
          (I.steal-success s.usable_blocks q b e, refl, refl)
    | inr (inr (q, e)) ↦
        let (same, fewer) = I.steal-retry s.usable_blocks q e in
        subst (Fits s m) (sym (next-retry fuel s m q e)) (
          Fits-retry s m q (get_next_usable_block I fuel (record s { usable_blocks = q }) m) same
            (next-Fits fuel (record s { usable_blocks = q }) m))
  ]

  -- Whatever the fuel, a result is that one.
  pub Took-of_next :
      (fuel : ℕ) (s : ImmixSpace I) (m : Mutators) (o : Option ImmixBlock) (s' : ImmixSpace I)
      (m' : Mutators)
      → get_next_usable_block I fuel s m ≡ ok (o, s', m')
      → Took s m o s' m'
  Took-of_next fuel s m o s' m' h = subst (Fits s m) h (next-Fits fuel s m)
