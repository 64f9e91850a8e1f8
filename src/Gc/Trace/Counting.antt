-- ===== src/Gc/Trace/Counting.antt =====
-- src/heap/gc/multi_thread_trace.rs: what `active_threads` counts, and what a worker knows when it
-- returns.
use Prim.Native.Nat.{ℕ, ◌+◌, ◌<◌, ◌≤◌}
use mathlib.Core.Path.{◌≡◌, refl, sym, ap, subst, ◌∙◌}
use mathlib.Core.Logic.{◌≢◌, ◌⊎◌, inl, inr}
use mathlib.Core.Bool.{Bool, true, false}
use mathlib.Core.List.{List, []}
use native.Mathlib.Omega.{arith}
use native.Mathlib.Decide.{ℕ_discrete}
use immix_rust.Prelude.Families.{
  with_thread, as_one, tally, tally-le, tally-with_thread, tally-none, tally-all, tally-at,
}
use immix_rust.Common.Address.{Address, ObjectReference, usize_mod}
use immix_rust.Common.TraceMap.{TraceMap}
use immix_rust.Crossbeam.Batch.{BatchInjector}
use immix_rust.Immix.LineMark.{LineMarkTable}
use immix_rust.Gc.Trace.{
  Pc, popping, stealing, leaving, waiting, checking, joining, returned, Shared, Move, steal,
  steal_empty, leave, see_work, see_none, return, spin, join, Workers, launched, Step, by, Reach,
  start, later,
}

-- The worker has or may get work, or it has failed: it will look at the injector before it leaves.
abbrev pub is_engaged : Pc → Bool
is_engaged leaving = false
is_engaged waiting = false
is_engaged checking = false
is_engaged joining = false
is_engaged returned = false
is_engaged _ = true

-- The worker is one of the `active_threads`.
abbrev pub is_counted : Pc → Bool
is_counted waiting = false
is_counted checking = false
is_counted joining = false
is_counted returned = false
is_counted _ = true

-- The worker has no reference in hand and none in its own queue.
abbrev pub is_idle : Pc → Bool
is_idle stealing = true
is_idle leaving = true
is_idle waiting = true
is_idle checking = true
is_idle joining = true
is_idle returned = true
is_idle _ = false

abbrev is_returned : Pc → Bool
is_returned returned = true
is_returned _ = false

module _ (I : BatchInjector ObjectReference) (alloc_map : List ℕ) (space_start space_end : Address)
    (word : Address → ℕ) where
  abbrev Moves : Shared I → Pc → Shared I → Pc → Type 0
  Moves = Move I alloc_map space_start space_end word

  abbrev items : Shared I → List ObjectReference
  items m = I.items m.injector

  -- How one access changes the counter, if the counter does not wrap.
  Move-active :
      {m m' : Shared I} {p p' : Pc}
      → Moves m p m' p'
      → as_one (is_counted p) ≤ m.active_threads
      → m.active_threads + 1 < usize_mod
      → m'.active_threads + as_one (is_counted p) ≡ m.active_threads + as_one (is_counted p')
  Move-active leave some_active low = omega arith
  Move-active join some_active low = omega arith
  Move-active move some_active low = refl

  -- Who adds to the injector is engaged, and who is engaged stays so until it sees it empty.
  Move-engaged :
      {m m' : Shared I} {p p' : Pc}
      → Moves m p m' p'
      → (is_engaged p' ≡ true) ⊎ (items m' ≡ []) ⊎ ((is_engaged p ≡ false) × (items m' ≡ items m))
  Move-engaged {m} (steal_empty e) = inr (inl (I.is_empty-items m.injector e))
  Move-engaged leave = inr (inr (refl, refl))
  Move-engaged (see_work e) = inr (inr (refl, refl))
  Move-engaged (see_none e) = inr (inr (refl, refl))
  Move-engaged (return e) = inr (inr (refl, refl))
  Move-engaged (spin e) = inr (inr (refl, refl))
  Move-engaged move = inl refl

  -- Without anything in the injector an idle worker stays idle.
  Move-idle :
      {m m' : Shared I} {p p' : Pc}
      → Moves m p m' p'
      → items m ≡ []
      → is_idle p ≡ true
      → (items m' ≡ []) × (is_idle p' ≡ true)
  Move-idle {m} (steal {o} {batch} {q} h) none idle =
      let e = I.StealsBatch-items m.injector q o batch h in absurd (cc)
  Move-idle move none idle = ground (arith, none)

  -- A worker returns only where it has read 0 from the counter.
  Move-returned :
      {m m' : Shared I} {p p' : Pc}
      → Moves m p m' p'
      → (is_returned p' ≡ false) ⊎ ((m.active_threads ≡ 0) × (items m' ≡ items m))
  Move-returned (return e) = inr (e, refl)
  Move-returned move = inl refl

  clash : {b : Bool} → b ≡ false → b ≡ true → ⊥
  clash f t = cc

  not_counted : (p : Pc) → is_counted p ≡ false → (is_engaged p ≡ false) × (is_idle p ≡ true)
  not_counted p h = ground arith

  -- Nothing is left to do: no reference is in the injector or with a worker.
  pub record Quiet (cpus : ℕ) (m : Shared I) (pc : ℕ → Pc) : Type 0 where
    pub none : items m ≡ []
    pub idle : (i : ℕ) → i < cpus → is_idle (pc i) ≡ true

  record Inv (cpus : ℕ) (m : Shared I) (pc : ℕ → Pc) : Type 0 where
    active : m.active_threads ≡ tally is_counted cpus pc
    engaged : (items m ≡ []) ⊎ ((i : ℕ) × (i < cpus) × (is_engaged (pc i) ≡ true))
    quiet : (i : ℕ) → i < cpus → is_returned (pc i) ≡ true → Quiet cpus m pc

  module _ {cpus : ℕ} (few : cpus + 1 < usize_mod) {m m' : Shared I} {pc : ℕ → Pc}
      (inv : Inv cpus m pc) (i : ℕ) (below : i < cpus) {p' : Pc} (move : Moves m (pc i) m' p') where
    abbrev next : ℕ → Pc
    next = with_thread i p' pc

    next_self : next i ≡ p'
    next_self = ground arith

    next_other : (j : ℕ) → i ≢ j → next j ≡ pc j
    next_other j ne = ground arith

    active_next : m'.active_threads ≡ tally is_counted cpus next
    active_next =
        let change = tally-with_thread is_counted cpus i p' pc below in
        let bound = tally-le is_counted cpus pc in
        let part = tally-at is_counted cpus i pc below in
        let counter = Move-active move (omega (arith, inv.active)) (omega (arith, inv.active)) in
        omega (arith, inv.active)

    engaged_next : (items m' ≡ []) ⊎ ((j : ℕ) × (j < cpus) × (is_engaged (next j) ≡ true))
    engaged_next = elim (Move-engaged move) [
      | inl now ↦ inr (i, below, ap is_engaged next_self ∙ now)
      | inr (inl none) ↦ inl none
      | inr (inr (not_before, same)) ↦ elim inv.engaged [
        | inl none ↦ inl (same ∙ none)
        | inr (j, jb, e) ↦ inr (j, jb, ap is_engaged (next_other j (λ ij. cc)) ∙ e)
      ]
    ]

    -- All workers are idle, and stay so.
    Quiet-kept : Quiet cpus m pc → Quiet cpus m' next
    Quiet-kept q =
        let (none, idle) = Move-idle move q.none (q.idle i below) in
        record {
          none = none;
          idle = λ j jb. elim (ℕ_discrete i j) [
            | yes same ↦ ap is_idle (subst (λ k. next k ≡ p') same next_self) ∙ idle
            | no other ↦ ap is_idle (next_other j other) ∙ q.idle j jb
          ];
        }

    -- The counter is 0, so that nobody is engaged, and so nothing is left.
    Quiet-now : m.active_threads ≡ 0 → Quiet cpus m pc
    Quiet-now zero_active =
        let nobody = tally-none is_counted cpus pc (sym inv.active ∙ zero_active) in
        record {
          none = elim inv.engaged [
            | inl none ↦ none
            | inr (j, jb, e) ↦ absurd (clash (not_counted (pc j) (nobody j jb)).0 e)
          ];
          idle = λ j jb. (not_counted (pc j) (nobody j jb)).1;
        }

    Quiet-next : (j : ℕ) → j < cpus → is_returned (next j) ≡ true → Quiet cpus m' next
    Quiet-next j jb r = elim (ℕ_discrete i j) [
      | no other ↦ Quiet-kept (inv.quiet j jb (ap is_returned (sym (next_other j other)) ∙ r))
      | yes same ↦ elim (Move-returned move) [
        | inl not_now ↦
            absurd
              (clash not_now (ap is_returned (sym (subst (λ k. next k ≡ p') same next_self)) ∙ r))
        | inr (zero_active, e) ↦ Quiet-kept (Quiet-now zero_active)
      ]
    ]

    Inv-next : Inv cpus m' next
    Inv-next = record { active = active_next; engaged = engaged_next; quiet = Quiet-next }

  Inv-Step :
      {cpus : ℕ}
      → cpus + 1 < usize_mod
      → {v w : Workers I} → Step I alloc_map space_start space_end word cpus v w
      → Inv cpus v.shared v.pc
      → Inv cpus w.shared w.pc
  Inv-Step few (by i below move) inv = Inv-next few inv i below move

  module _ (cpus : ℕ) (some_cpu : 0 < cpus) (few : cpus + 1 < usize_mod)
      (work_stack : List ObjectReference) (trace_map : TraceMap)
      (line_mark_table : LineMarkTable) where
    abbrev Reached : Workers I → Type 0
    Reached =
        Reach I alloc_map space_start space_end word cpus
          (launched I cpus work_stack trace_map line_mark_table)

    Reach-Inv : {w : Workers I} → Reached w → Inv cpus w.shared w.pc
    Reach-Inv start = record {
      active = sym (tally-all is_counted cpus (λ _. popping []) (λ _. refl));
      engaged = inr (0, some_cpu, refl);
      quiet = λ i below not_yet. absurd (clash refl not_yet);
    }
    Reach-Inv (later r step) = Inv-Step few step (Reach-Inv r)

    -- At every moment of the trace, with at least one worker and fewer than the counter can hold,
    -- `active_threads` is the number of workers that have not left.
    pub active_threads-tally :
        {w : Workers I} → Reached w → w.shared.active_threads ≡ tally is_counted cpus w.pc
    active_threads-tally r = (Reach-Inv r).active

    -- With at least one worker and fewer than the counter can hold: from the moment on at which a
    -- worker returns, the injector is empty and no worker has a reference in hand or in its own
    -- queue, so that none returns too early.
    pub returned-Quiet :
        {w : Workers I}
        → Reached w
        → (i : ℕ) → i < cpus
        → w.pc i ≡ returned
        → Quiet cpus w.shared w.pc
    returned-Quiet r i below e = (Reach-Inv r).quiet i below (ap is_returned e)
