-- ===== src/Gc/Trace/Flow.antt =====
-- src/heap/gc/multi_thread_trace.rs: where one access of a worker leaves the references.
use Prim.Native.Nat.{ℕ, ◌<◌, ◌≤◌}
use mathlib.Core.Path.{◌≡◌, refl, sym, ap}
use mathlib.Core.Logic.{◌⊎◌, inl, inr}
use mathlib.Core.Bool.{Bool, true, false}
use mathlib.Core.List.{List, [], ◌∷◌}
use native.Mathlib.Omega.{arith}
use native.Mathlib.Decide.{ℕ_discrete}
use immix_rust.Prelude.{==_iff}
use immix_rust.Prelude.Members.{Has, Has-append, Has-split, Has-cast}
use immix_rust.Common.Address.{Address, ObjectReference, plus}
use immix_rust.Common.TraceMap.{is_untraced_and_valid}
use immix_rust.Crossbeam.Batch.{BatchInjector}
use immix_rust.Gc.Trace.{
  Pc, marking, scanning, Shared, Move, pop, steal, trace_outside, trace, trace_fails, mark,
  mark_fails, read, read_unexpected, read_fails, edge, edge_skipped, push, scanned, long_encode,
}
use immix_rust.Gc.Trace.Reachable.{held, works_on, is_failed, marked_at}

module _ (I : BatchInjector ObjectReference) (alloc_map : List ℕ) (space_start space_end : Address)
    (word : Address → ℕ) where
  abbrev Moves : Shared I → Pc → Shared I → Pc → Type 0
  Moves = Move I alloc_map space_start space_end word

  abbrev items : Shared I → List ObjectReference
  items m = I.items m.injector

  -- A worker that has failed makes no more moves.
  pub Move-not_failed : {m m' : Shared I} {p p' : Pc} → Moves m p m' p' → is_failed p ≡ false
  Move-not_failed pop = refl
  Move-not_failed move = refl

  -- No reference is lost, unless the worker fails: it stays in the injector or with the worker, or it
  -- is marked.
  pub Move-keeps :
      {m m' : Shared I} {p p' : Pc} (done : ObjectReference → Bool)
      → Moves m p m' p'
      → is_failed p' ≡ false
      → (c : ObjectReference) → Has c (items m) ⊎ Has c (held p)
      → Has c (items m') ⊎ Has c (held p') ⊎ (marked_at p' done c ≡ true)
  Move-keeps {m} done (steal {o} {batch} {q} s) alive c (inl h) =
      elim (Has-cast c (I.StealsBatch-items m.injector q o batch s) h) [
        | inl first ↦ inr (inl (inl first))
        | inr more ↦ elim (Has-split c batch (I.items q) more) [
          | inl moved ↦ inr (inl (inr moved))
          | inr stays ↦ inl stays
        ]
      ]
  Move-keeps {m} done (steal s) alive c (inr h) = elim h [ ]
  Move-keeps done (trace {o} inside t) alive c (inr (inl e)) = inr (inr (ground arith))
  Move-keeps done (trace {o} inside t) alive c (inr (inr h)) = inr (inl h)
  Move-keeps {m} done (push {c = pushed}) alive c (inl h) = inl (
      Has-cast c (sym (I.items-push m.injector pushed))
        (Has-append c (items m) (pushed ∷ []) (inl h)))
  Move-keeps {m} done (push {c = pushed}) alive c (inr (inl e)) = inl (
      Has-cast c (sym (I.items-push m.injector pushed))
        (Has-append c (items m) (pushed ∷ []) (inr (inl e))))
  Move-keeps {m} done (push {c = pushed}) alive c (inr (inr h)) = inr (inl h)
  Move-keeps done (edge u) alive c (inr h) = inr (inl (inr h))
  Move-keeps done (trace_outside e) alive c h = cc
  Move-keeps done (trace_fails e e') alive c h = cc
  Move-keeps done (mark_fails e) alive c h = cc
  Move-keeps done (read_unexpected e e') alive c h = cc
  Move-keeps done (read_fails e) alive c h = cc
  Move-keeps done (long_encode e) alive c h = cc
  Move-keeps done move alive c (inl h) = inl h
  Move-keeps done move alive c (inr h) = inr (inl h)

  -- No reference comes out of nowhere: it was there, or the worker read it in a marked object.
  pub Move-sources :
      {m m' : Shared I} {p p' : Pc}
      → Moves m p m' p'
      → (c : ObjectReference) → Has c (items m') ⊎ Has c (held p')
      → Has c (items m)
        ⊎ Has c (held p)
        ⊎ ((o : ObjectReference) × (value offset : ℕ) × (left own : List ObjectReference) × (p
              ≡ scanning o value (offset ∷ left) own)
            × (c ≡ word (plus o offset))
            × (is_untraced_and_valid m.trace_map c ≡ true))
  Move-sources {m} (steal {o} {batch} {q} s) c (inl h) = inl (
      Has-cast c (sym (I.StealsBatch-items m.injector q o batch s))
        (inr (Has-append c batch (I.items q) (inr h))))
  Move-sources {m} (steal {o} {batch} {q} s) c (inr (inl e)) =
      inl (Has-cast c (sym (I.StealsBatch-items m.injector q o batch s)) (inl e))
  Move-sources {m} (steal {o} {batch} {q} s) c (inr (inr h)) = inl (
      Has-cast c (sym (I.StealsBatch-items m.injector q o batch s))
        (inr (Has-append c batch (I.items q) (inl h))))
  Move-sources {m} (push {c = pushed}) c (inl h) =
      elim (Has-split c (items m) (pushed ∷ []) (Has-cast c (I.items-push m.injector pushed) h)) [
        | inl old ↦ inl old
        | inr (inl e) ↦ inr (inl (inl e))
        | inr (inr none) ↦ elim none [ ]
      ]
  Move-sources (push {c = pushed}) c (inr h) = inr (inl (inr h))
  Move-sources (edge {o} {value} {offset} {left} {own} u) c (inr (inl e)) =
      inr (inr (o, value, offset, left, own, refl, e, rw e u))
  Move-sources (edge u) c (inr (inr h)) = inr (inl h)
  Move-sources (trace inside t) c (inr h) = inr (inl (inr h))
  Move-sources (trace_outside e) c (inr h) = elim h [ ]
  Move-sources (trace_fails e e') c (inr h) = elim h [ ]
  Move-sources (mark_fails e) c (inr h) = elim h [ ]
  Move-sources (read_unexpected e e') c (inr h) = elim h [ ]
  Move-sources (read_fails e) c (inr h) = elim h [ ]
  Move-sources (long_encode e) c (inr h) = elim h [ ]
  Move-sources move c (inl h) = inl h
  Move-sources move c (inr h) = inr (inl h)

  -- A newly marked object is the one that the worker had in hand, inside the space.
  pub Move-marks :
      {m m' : Shared I} {p p' : Pc} (done : ObjectReference → Bool)
      → Moves m p m' p'
      → (o : ObjectReference) → marked_at p' done o ≡ true
      → (done o ≡ true)
        ⊎ (Has o (held p) × (works_on p' o ≡ true) × (space_start ≤ o) × (o < space_end))
  Move-marks done (trace {o = next} inside t) o h = elim (ℕ_discrete next o) [
    | yes same ↦ inr (inl (sym same), ground arith, ground arith, ground arith)
    | no other ↦ inl (ground arith)
  ]
  Move-marks done move o h = inl h

  pub marked_at_mono :
      (p : Pc) (done : ObjectReference → Bool) (o : ObjectReference)
      → done o ≡ true
      → marked_at p done o ≡ true
  marked_at_mono (marking next own) done o h = ground arith
  marked_at_mono p done o h = h

  -- A worker leaves an object only when no reference of it is left.
  pub Move-works_on :
      {m m' : Shared I} {p p' : Pc}
      → Moves m p m' p'
      → is_failed p' ≡ false
      → (o : ObjectReference) → works_on p o ≡ true
      → (works_on p' o ≡ true)
        ⊎ ((value : ℕ) × (own : List ObjectReference) × (p ≡ scanning o value [] own))
  Move-works_on (scanned {o = next} {value} {own} e) alive o h =
      inr (value, own, ap (λ n. scanning n value [] own) ((==_iff next o).0 h))
  Move-works_on (mark_fails e) alive o h = cc
  Move-works_on (read_unexpected e e') alive o h = cc
  Move-works_on (read_fails e) alive o h = cc
  Move-works_on (long_encode e) alive o h = cc
  Move-works_on (mark e) alive o h = inl h
  Move-works_on (read e e') alive o h = inl h
  Move-works_on (edge e) alive o h = inl h
  Move-works_on (edge_skipped e) alive o h = inl h
  Move-works_on push alive o h = inl h
  Move-works_on move alive o h = cc
