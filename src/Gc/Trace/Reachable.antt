-- ===== src/Gc/Trace/Reachable.antt =====
-- src/heap/gc/multi_thread_trace.rs: what a trace is to visit, and what holds while it runs.
use Prim.Native.Nat.{ℕ, ◌+◌, ◌-◌, ◌*◌, ◌/◌, ◌<◌, ◌≤◌}
use mathlib.Core.Path.{◌≡◌}
use mathlib.Core.Logic.{◌⊎◌}
use mathlib.Core.Bool.{Bool, true, false}
use mathlib.Core.List.{List, [], ◌∷◌}
use mathlib.Core.Option.{some}
use immix_rust.Prelude.{ok, ◌==◌}
use immix_rust.Prelude.Families.{with_thread}
use immix_rust.Prelude.Members.{Has}
use immix_rust.Common.Address.{Address, ObjectReference, plus}
use immix_rust.Common.TraceMap.{TraceMap, is_untraced_and_valid}
use immix_rust.Common.TraceMap.Marks.{IsTraced, cell}
use immix_rust.ObjectModel.{get_ref_byte}
use immix_rust.Crossbeam.Batch.{BatchInjector}
use immix_rust.Immix.Sizes.{bytes_in_line}
use immix_rust.Immix.LineMark.Marking.{IsTable, IsLiveAt}
use immix_rust.Gc.Trace.{
  Pc, popping, tracing, marking, reading, scanning, pushing, failed, Shared, offsets, ref_bits,
}

-- The references that a worker has in hand and has not marked, and those in its own queue.
abbrev pub held : Pc → List ObjectReference
held (popping own) = own
held (tracing next own) = next ∷ own
held (marking next own) = own
held (reading next own) = own
held (scanning next value left own) = own
held (pushing c next value left own) = c ∷ own
held _ = []

-- The worker has marked the object and is not finished with it.
abbrev pub works_on : Pc → ObjectReference → Bool
works_on (marking next own) o = next == o
works_on (reading next own) o = next == o
works_on (scanning next value left own) o = next == o
works_on (pushing c next value left own) o = next == o
works_on _ o = false

abbrev pub is_failed : Pc → Bool
is_failed (failed e) = true
is_failed _ = false

-- The objects that were marked, after a worker came to `p`.
abbrev pub marked_at : Pc → (ObjectReference → Bool) → ObjectReference → Bool
marked_at (marking next own) done = with_thread next true done
marked_at _ done = done

module _ (alloc_map : List ℕ) (space_start : Address) (word : Address → ℕ) (before : TraceMap) where
  -- `o` holds a reference to `c`, by the byte that describes `o`.
  pub record Edge (o c : ObjectReference) : Type 0 where
    pub value : ℕ
    pub found : List ℕ
    pub offset : ℕ
    pub byte : get_ref_byte alloc_map space_start o ≡ ok value
    pub bits : offsets (ref_bits value) ≡ some found
    pub has : Has offset found
    pub at : c ≡ word (plus o offset)

  -- The reference points to a word of the space that was not traced when the trace began.
  abbrev pub IsFresh : ObjectReference → Type 0
  IsFresh c = is_untraced_and_valid before c ≡ true

  -- What the trace can come to from `work_stack`, through words that were not traced before.
  pub data Reachable (work_stack : List ObjectReference) : ObjectReference → Type 0 where
    root : {o : ObjectReference} → Has o work_stack → Reachable work_stack o
    along :
        {o c : ObjectReference}
        → Reachable work_stack o
        → Edge o c
        → IsFresh c
        → Reachable work_stack c

  -- The references of the object that are not left have been accounted for.
  pub record Scanned (known : ObjectReference → Type 0) (o : ObjectReference) (value : ℕ)
      (left : List ℕ) : Type 0 where
    pub found : List ℕ
    pub byte : get_ref_byte alloc_map space_start o ≡ ok value
    pub bits : offsets (ref_bits value) ≡ some found
    pub todo : (offset : ℕ) → Has offset left → Has offset found
    pub rest :
        (offset : ℕ)
        → Has offset found
        → IsFresh (word (plus o offset))
        → Has offset left ⊎ known (word (plus o offset))

  module _ (I : BatchInjector ObjectReference) where
    abbrev pub IsLive : Shared I → ObjectReference → Type 0
    IsLive m o = IsLiveAt m.line_mark_table.cells ((o - space_start) / bytes_in_line)

    -- The reference waits in the injector or with a worker, or was marked.
    abbrev pub Known : ℕ → Shared I → (ℕ → Pc) → (ObjectReference → Bool) → ObjectReference → Type 0
    Known cpus m pc done c =
        Has c (I.items m.injector) ⊎ ((i : ℕ) × (i < cpus) × Has c (held (pc i))) ⊎ (done c ≡ true)

    abbrev pub Complete : (ObjectReference → Type 0) → ObjectReference → Type 0
    Complete known o = (c : ObjectReference) → Edge o c → IsFresh c → known c

    -- What a worker knows about the object in its hand.
    abbrev pub PcOk : Shared I → (ObjectReference → Type 0) → (ObjectReference → Bool) → Pc → Type 0
    PcOk m known done (marking next own) = done next ≡ true
    PcOk m known done (reading next own) = (done next ≡ true) × IsLive m next
    PcOk m known done (scanning next value left own) =
        (done next ≡ true) × IsLive m next × Scanned known next value left
    PcOk m known done (pushing c next value left own) =
        (done next ≡ true) × IsLive m next × Scanned known next value left
    PcOk m known done _ = Unit

    pub record Tracing (space_end : Address) (cpus : ℕ) (work_stack : List ObjectReference)
        (m : Shared I) (pc : ℕ → Pc) (done : ObjectReference → Bool) : Type 0 where
      pub roots : (c : ObjectReference) → Has c work_stack → Known cpus m pc done c
      pub sound : (c : ObjectReference) → Known cpus m pc done c → Reachable work_stack c
      pub inside : (o : ObjectReference) → done o ≡ true → (space_start ≤ o) × (o < space_end)
      pub offset : m.trace_map.map.offset ≡ before.map.offset
      pub grew : (p : ℕ) → is_untraced_and_valid m.trace_map p ≡ true → IsFresh p
      pub traced : (o : ObjectReference) → done o ≡ true → IsTraced m.trace_map o
      pub only :
          (p : ℕ)
          → IsFresh p
          → is_untraced_and_valid m.trace_map p ≡ false
          → (o : ObjectReference) × (done o ≡ true) × (cell before o ≡ cell before p)
      pub table : IsTable m.line_mark_table
      pub table_start : m.line_mark_table.space_start ≡ space_start
      pub table_end : space_end ≤ space_start + m.line_mark_table.len * bytes_in_line
      pub status :
          (o : ObjectReference)
          → done o ≡ true
          → (IsLive m o × Complete (Known cpus m pc done) o)
            ⊎ ((i : ℕ) × (i < cpus) × (works_on (pc i) o ≡ true))
      pub pcs : (i : ℕ) → i < cpus → PcOk m (Known cpus m pc done) done (pc i)
