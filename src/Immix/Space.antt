-- ===== src/Immix/Space.antt =====
-- src/heap/immix/immix_space.rs: `ImmixSpace`, over the crossbeam queues of its blocks.
pub mod Sweep
pub mod Init
pub mod Next
use Prim.Native.Nat.{ℕ, zero, suc, ◌+◌, ◌/◌, ◌^◌}
use mathlib.Core.Bool.{Bool, true, false, ◌&&◌}
use mathlib.Core.List.{List, [], ◌∷◌, foldl}
use mathlib.Core.Option.{Option, none, some}
use immix_rust.Prelude.{
  Outcome, ok, err, out_of_fuel, panicked, ◌>>=◌, ◌>>◌, of_option, check, ltb, leb, ◌==◌,
  if◌then◌else◌,
}
use immix_rust.Common.Address.{Address, plus, align_up}
use immix_rust.Common.AddressMap.{AddressMap}
use immix_rust.Common.AddressMap
use immix_rust.Common.TraceMap.{TraceMap}
use immix_rust.Common.TraceMap
use immix_rust.Crossbeam.{Injector, Steal, empty, success, retry}
use immix_rust.Immix.Sizes.{bytes_in_block, lines_in_block, BlockMark, usable, full}
use immix_rust.Immix.Globals.{Mutators, trigger_gc}
use immix_rust.Immix.Block.{ImmixBlock, set_state}
use immix_rust.Immix.LineMark.{
  LineMark, free, is_live, LineMarkTable, LineMarkTableSlice, take_slice, slice_get, slice_set,
}
use immix_rust.Immix.LineMark

abbrev pub space_align : ℕ
space_align = 2 ^ 19

module _ (I : Injector ImmixBlock) where
  pub record ImmixSpace : Type 0 where
    pub start : Address
    pub end : Address
    pub alloc_map : AddressMap ℕ
    pub trace_map : TraceMap
    pub line_mark_table : LineMarkTable
    pub total_blocks : ℕ
    pub usable_blocks : I.Queue
    pub used_blocks : I.Queue

  -- The `while` loop of `init_blocks`: the number of blocks and the queue that holds them.
  unfoldable pub init_loop :
      ℕ → LineMarkTable → Address → ℕ → Address → ℕ → I.Queue → Outcome (ℕ × I.Queue)
  unfolding plus take_slice
  init_loop zero table end id block_start line queue =
      if leb (plus block_start bytes_in_block) end then err out_of_fuel else ok (id, queue)
  init_loop (suc fuel) table end id block_start line queue =
      let block : ImmixBlock = record {
        id = id;
        state = usable;
        start = block_start;
        line_mark_table = take_slice table line lines_in_block;
      } in
      let rest =
        init_loop fuel table end (id + 1) (plus block_start bytes_in_block) (line + lines_in_block)
          (I.push queue block) in
      if leb (plus block_start bytes_in_block) end then rest else ok (id, queue)

  -- Every round takes a block of the space.
  unfoldable pub init_blocks : ImmixSpace → Outcome ImmixSpace
  unfolding init_loop
  init_blocks s = do
    (id, queue) ←
        init_loop (s.end / bytes_in_block) s.line_mark_table s.end 0 s.start 0 s.usable_blocks
    ok (record s { usable_blocks = queue; total_blocks = id })

  -- `mapped` is the address of the memory that `mmap` returns, if it does.
  unfoldable pub new : Option Address → ℕ → Outcome ImmixSpace
  unfolding align_up plus LineMark.new TraceMap.new AddressMap.new init_blocks
  new mapped space_size = do
    anon_mmap ← of_option panicked mapped
    let start = align_up anon_mmap space_align
    let end = plus start space_size
    init_blocks (record {
      start = start;
      end = end;
      line_mark_table = LineMark.new start end;
      trace_map = TraceMap.new start end;
      alloc_map = AddressMap.new 0 start end;
      usable_blocks = I.new;
      used_blocks = I.new;
      total_blocks = 0;
    })

  unfoldable pub return_used_block : ImmixSpace → ImmixBlock → ImmixSpace
  return_used_block s old = record s { used_blocks = I.push s.used_blocks old }

  -- The fuel bounds the retries.
  unfoldable pub get_next_usable_block :
      ℕ → ImmixSpace → Mutators → Outcome (Option ImmixBlock × ImmixSpace × Mutators)
  unfolding trigger_gc
  get_next_usable_block zero s mutators = err out_of_fuel
  get_next_usable_block (suc fuel) s mutators =
      let (stolen, queue) = I.steal s.usable_blocks in
      let s' = record s { usable_blocks = queue } in
      elim stolen [
        | empty ↦ ok (none, s', trigger_gc mutators)
        | success v ↦ ok (some v, s', mutators)
        | retry ↦ get_next_usable_block fuel s' mutators
      ]

  abbrev pub addr_in_space : ImmixSpace → Address → Bool
  addr_in_space s addr = leb s.start addr && ltb addr s.end
