-- ===== src/Gc/Trace.antt =====
-- src/heap/gc/multi_thread_trace.rs: the workers of `start_trace` over what they share, one access to
-- it at a time. What the trace only reads is given: the allocation map, the bounds of the space, and
-- the words of memory.
pub mod Counting
pub mod Reachable
pub mod Flow
pub mod Effects
pub mod Progress
pub mod Kept
pub mod Completeness
pub mod Unfailing
use Prim.Native.Nat.{ℕ, ◌+◌, ◌%◌, ◌/◌, ◌^◌, ◌<◌}
use mathlib.Core.Path.{◌≡◌}
use mathlib.Core.Logic.{◌≢◌}
use mathlib.Core.Bool.{Bool, true, false, ◌&&◌}
use mathlib.Core.List.{List, [], ◌∷◌, foldl}
use mathlib.Core.Option.{Option, none, some}
use immix_rust.Prelude.{Failure, panicked, ok, err, ltb, leb, ◌==◌, if◌then◌else◌}
use immix_rust.Prelude.Families.{with_thread}
use immix_rust.Common.Address.{Address, ObjectReference, plus, wrapping_add, wrapping_sub}
use immix_rust.Common.TraceMap.{TraceMap, mark_as_traced, is_untraced_and_valid}
use immix_rust.ObjectModel.{ref_bits_len, short_encode_bit, get_ref_byte}
use immix_rust.Crossbeam.Batch.{BatchInjector}
use immix_rust.Immix.LineMark.{LineMarkTable, mark_line_live}

-- `value & ((1 << REF_BITS_LEN) - 1)`
abbrev pub ref_bits : ℕ → ℕ
ref_bits value = value % 2 ^ ref_bits_len

-- `value & (1 << SHORT_ENCODE_BIT) != 0`
abbrev pub short_encode : ℕ → Bool
short_encode value = value / 2 ^ short_encode_bit % 2 == 1

-- The offsets of the references that the arms of `match ref_bits` visit.
abbrev pub offsets : ℕ → Option (List ℕ)
offsets bits =
    if bits == 1
    then some (0 ∷ [])
    else if bits == 3
    then some (0 ∷ 8 ∷ [])
    else if bits == 15
    then some (0 ∷ 8 ∷ 16 ∷ 24 ∷ [])
    else none

-- Where a worker stands, with its own queue while that may hold something.
pub data Pc : Type 0 where
  popping : (own : List ObjectReference) → Pc  -- before `worker.pop()`
  stealing : Pc  -- before `steal_batch_and_pop`
  leaving : Pc  -- saw `Steal::Empty`, before the `fetch_sub`
  waiting : Pc  -- before `injector.is_empty()`
  checking : Pc  -- saw it empty, before the load of `active_threads`
  joining : Pc  -- saw it not empty, before the `fetch_add`
  returned : Pc
  tracing : (next : ObjectReference) (own : List ObjectReference) → Pc
  marking : (next : ObjectReference) (own : List ObjectReference) → Pc  -- before `mark_line_live`
  reading : (next : ObjectReference) (own : List ObjectReference) → Pc  -- before `get_ref_byte`
  scanning : (next : ObjectReference) (value : ℕ) (left : List ℕ) (own : List ObjectReference) → Pc
  pushing :
      (edge next : ObjectReference) (value : ℕ) (left : List ℕ) (own : List ObjectReference) → Pc
  failed : Failure → Pc  -- a panic, or an access outside an allocation

module _ (I : BatchInjector ObjectReference) where
  pub record Shared : Type 0 where
    pub injector : I.Queue
    pub active_threads : ℕ
    pub trace_map : TraceMap
    pub line_mark_table : LineMarkTable

  -- The workers `0 .. n - 1`, interleaved in any order.
  pub record Workers : Type 0 where
    pub shared : Shared
    pub pc : ℕ → Pc

  -- `start_trace`, when it has launched `cpus` workers.
  abbrev pub launched : ℕ → List ObjectReference → TraceMap → LineMarkTable → Workers
  launched cpus work_stack trace_map line_mark_table = record {
    shared = record {
      injector = foldl I.push I.new work_stack;
      active_threads = cpus;
      trace_map = trace_map;
      line_mark_table = line_mark_table;
    };
    pc = λ _. popping [];
  }

  module _ (alloc_map : List ℕ) (space_start space_end : Address) (word : Address → ℕ) where
    -- One access of one worker.
    pub data Move (m : Shared) : Pc → Shared → Pc → Type 0 where
      pop :
          {o : ObjectReference} {own : List ObjectReference}
          → Move m (popping (o ∷ own)) m (tracing o own)
      pop_none : Move m (popping []) m stealing
      steal :
          {o : ObjectReference} {batch : List ObjectReference} {q : I.Queue}
          → I.StealsBatch m.injector o batch q
          → Move m stealing (record m { injector = q }) (tracing o batch)
      steal_retry : Move m stealing m stealing
      steal_empty : I.is_empty m.injector ≡ true → Move m stealing m leaving
      leave : Move m leaving (record m { active_threads = wrapping_sub m.active_threads 1 }) waiting
      see_work : I.is_empty m.injector ≡ false → Move m waiting m joining
      see_none : I.is_empty m.injector ≡ true → Move m waiting m checking
      return : m.active_threads ≡ 0 → Move m checking m returned
      spin : m.active_threads ≢ 0 → Move m checking m waiting
      join : Move m joining (record m { active_threads = wrapping_add m.active_threads 1 }) stealing
      trace_outside :
          {o : ObjectReference} {own : List ObjectReference}
          → leb space_start o && ltb o space_end ≡ false
          → Move m (tracing o own) m (failed panicked)
      trace :
          {o : ObjectReference} {own : List ObjectReference} {t : TraceMap}
          → leb space_start o && ltb o space_end ≡ true
          → mark_as_traced m.trace_map o ≡ ok t
          → Move m (tracing o own) (record m { trace_map = t }) (marking o own)
      trace_fails :
          {o : ObjectReference} {own : List ObjectReference} {e : Failure}
          → leb space_start o && ltb o space_end ≡ true
          → mark_as_traced m.trace_map o ≡ err e
          → Move m (tracing o own) m (failed e)
      mark :
          {o : ObjectReference} {own : List ObjectReference} {t : LineMarkTable}
          → mark_line_live m.line_mark_table o ≡ ok t
          → Move m (marking o own) (record m { line_mark_table = t }) (reading o own)
      mark_fails :
          {o : ObjectReference} {own : List ObjectReference} {e : Failure}
          → mark_line_live m.line_mark_table o ≡ err e
          → Move m (marking o own) m (failed e)
      read :
          {o : ObjectReference} {own : List ObjectReference} {value : ℕ} {found : List ℕ}
          → get_ref_byte alloc_map space_start o ≡ ok value
          → offsets (ref_bits value) ≡ some found
          → Move m (reading o own) m (scanning o value found own)
      read_unexpected :
          {o : ObjectReference} {own : List ObjectReference} {value : ℕ}
          → get_ref_byte alloc_map space_start o ≡ ok value
          → offsets (ref_bits value) ≡ none
          → Move m (reading o own) m (failed panicked)
      read_fails :
          {o : ObjectReference} {own : List ObjectReference} {e : Failure}
          → get_ref_byte alloc_map space_start o ≡ err e
          → Move m (reading o own) m (failed e)
      edge :
          {o : ObjectReference} {value offset : ℕ} {left : List ℕ} {own : List ObjectReference}
          → is_untraced_and_valid m.trace_map (word (plus o offset)) ≡ true
          → Move m
              (scanning o value (offset ∷ left) own)
              m
              (pushing (word (plus o offset)) o value left own)
      edge_skipped :
          {o : ObjectReference} {value offset : ℕ} {left : List ℕ} {own : List ObjectReference}
          → is_untraced_and_valid m.trace_map (word (plus o offset)) ≡ false
          → Move m (scanning o value (offset ∷ left) own) m (scanning o value left own)
      push :
          {c o : ObjectReference} {value : ℕ} {left : List ℕ} {own : List ObjectReference}
          → Move m
              (pushing c o value left own)
              (record m { injector = I.push m.injector c })
              (scanning o value left own)
      scanned :
          {o : ObjectReference} {value : ℕ} {own : List ObjectReference}
          → short_encode value ≡ true
          → Move m (scanning o value [] own) m (popping own)
      long_encode :
          {o : ObjectReference} {value : ℕ} {own : List ObjectReference}
          → short_encode value ≡ false
          → Move m (scanning o value [] own) m (failed panicked)

    pub data Step (cpus : ℕ) (w : Workers) : Workers → Type 0 where
      by :
          (i : ℕ) {m : Shared} {p : Pc}
          → i < cpus
          → Move w.shared (w.pc i) m p
          → Step cpus w (record { shared = m; pc = with_thread i p w.pc })

    pub data Reach (cpus : ℕ) (before : Workers) : Workers → Type 0 where
      start : Reach cpus before before
      later : {v w : Workers} → Reach cpus before v → Step cpus v w → Reach cpus before w
