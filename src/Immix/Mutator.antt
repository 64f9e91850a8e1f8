-- ===== src/Immix/Mutator.antt =====
-- src/heap/immix/immix_mutator.rs: `ImmixMutatorLocal`, the allocator of one thread. Its raw pointer to
-- the allocation map and its `Arc` of the space both lead to the space of `Heap`, and its `Arc` of the
-- shared flags to the entry of `MUTATORS` under its index.
pub mod Holes
pub mod Invariant
pub mod TakeHole
pub mod Allocation
pub mod Soundness
pub mod NextBlock
pub mod Parts
pub mod Paths
pub mod Handing
pub mod Returns
use Prim.Native.Nat.{ℕ, zero, suc, ◌+◌, ◌-◌, ◌/◌}
use mathlib.Core.Bool.{Bool, false}
use mathlib.Core.List.{List, [], ◌∷◌, ◌++◌}
use mathlib.Core.Option.{Option, none, some}
use immix_rust.Prelude.{
  Outcome, ok, err, out_of_fuel, panicked, ◌>>=◌, of_option, store, ltb, leb, ◌==◌, if◌then◌else◌,
}
use immix_rust.Common.Address.{
  Address, plus, diff, align_up, shift_left, wrapping_add, wrapping_sub, null, pointer_size,
}
use immix_rust.Crossbeam.{Injector}
use immix_rust.Immix.Sizes.{log_bytes_in_line, lines_in_block}
use immix_rust.Immix.Globals.{ImmixMutatorGlobal, Mutators, trigger_gc}
use immix_rust.Immix.Globals
use immix_rust.Immix.Block.{ImmixBlock, get_next_available_line, get_next_unavailable_line}
use immix_rust.Immix.LineMark.{LineMark, fresh_alloc, LineMarkTableSlice, slice_set}
use immix_rust.Immix.Space.{ImmixSpace, return_used_block, get_next_usable_block}

-- `std::alloc::Layout`
pub record Layout : Type 0 where
  pub size : ℕ
  pub align : ℕ

pub record ImmixMutatorLocal : Type 0 where
  pub id : ℕ
  pub space_start : Address
  pub cursor : Address
  pub limit : Address
  pub line : ℕ
  pub block : Option ImmixBlock

unfoldable pub reset : ImmixMutatorLocal → ImmixMutatorLocal
reset m = record m { cursor = null; limit = null; line = lines_in_block; block = none }

-- The flags of the mutator that is registered under `id`.
unfoldable pub global : ℕ → Mutators → Option ImmixMutatorGlobal
global id [] = none
global id ((i, g) ∷ rest) = if i == id then some g else global id rest

unfoldable pub remove : ℕ → Mutators → Mutators
remove id [] = []
remove id ((i, g) ∷ rest) = if i == id then rest else (i, g) ∷ remove id rest

-- The `for` loop that marks the lines of a hole, from `line` on, `rounds` of them.
unfoldable pub mark_fresh : ℕ → List LineMark → LineMarkTableSlice → ℕ → Outcome (List LineMark)
unfolding slice_set
mark_fresh zero cells s line = ok cells
mark_fresh (suc rounds) cells s line = do
  cells' ← slice_set cells s line fresh_alloc
  mark_fresh rounds cells' s (line + 1)

module _ (I : Injector ImmixBlock) where
  -- A mutator with what it shares with the others.
  pub record Heap : Type 0 where
    pub local : ImmixMutatorLocal
    pub space : ImmixSpace I
    pub mutators : Mutators
    pub n_mutators : ℕ

  -- `id` is the index that the arena gives to the new entry.
  unfoldable pub new : ℕ → ImmixSpace I → Mutators → ℕ → Heap
  new id space mutators n_mutators = record {
    local = record {
      id = id;
      space_start = space.start;
      cursor = null;
      limit = null;
      line = lines_in_block;
      block = none;
    };
    space = space;
    mutators = mutators ++ (id, Globals.new) ∷ [];
    n_mutators = wrapping_add n_mutators 1;
  }

  unfoldable pub return_block : Heap → Heap
  unfolding return_used_block
  return_block h = elim h.local.block [
    | none ↦ h
    | some b ↦ record h {
      local = record h.local { block = none };
      space = return_used_block I h.space b;
    }
  ]

  abbrev pub prepare_for_gc : Heap → Heap
  prepare_for_gc = return_block

  unfoldable pub destroy : Heap → Heap
  unfolding return_block remove
  destroy h =
      let h' = return_block h in
      record h' {
        mutators = remove h.local.id h'.mutators;
        n_mutators = wrapping_sub h'.n_mutators 1;
      }

  unfoldable pub init_object : Heap → Address → ℕ → Outcome Heap
  unfolding diff
  init_object h addr encode = do
    let map = h.space.alloc_map
    ptr ← store map.ptr (diff addr h.local.space_start / pointer_size) encode
    ok (record h { space = record h.space { alloc_map = record map { ptr = ptr } } })

  unfoldable pub take_yield : Heap → Bool
  unfolding global
  take_yield h = elim (global h.local.id h.mutators) [ none ↦ false | some g ↦ g.take_yield ]

  -- `alloc`, `try_alloc_from_local` and `alloc_from_global` call one another: `again` stands for
  -- the call of `alloc` at the end of a slow path.
  abbrev pub Alloc : Type 0
  Alloc = Heap → Layout → Outcome (Address × Heap)

  unfoldable pub take_block : Heap → ImmixBlock → Heap
  take_block h b = record h {
    local = record h.local { block = some b; cursor = b.start; limit = b.start; line = 0 };
  }

  -- The mutator takes the hole of free lines that begins at `next_available_line`.
  unfoldable pub take_hole : Heap → ImmixBlock → ℕ → Outcome Heap
  unfolding plus get_next_unavailable_line mark_fresh
  take_hole h b next_available_line = do
    let table = h.space.line_mark_table
    end_line ← get_next_unavailable_line table.cells b next_available_line
    cells ←
        mark_fresh (end_line - next_available_line) table.cells b.line_mark_table
          next_available_line
    ok (record h {
      local = record h.local {
        cursor = plus b.start (shift_left next_available_line log_bytes_in_line);
        limit = plus b.start (shift_left end_line log_bytes_in_line);
        line = end_line;
      };
      space = record h.space { line_mark_table = record table { cells = cells } };
    })

  -- `gc::sync_barrier`, in which the other threads act as well, is a parameter.
  module _ (sync_barrier : Heap → Outcome Heap) where
    unfoldable pub yieldpoint : Heap → Outcome Heap
    unfolding take_yield
    yieldpoint h = if take_yield h then sync_barrier h else ok h

    unfoldable pub request_gc : Heap → Outcome Heap
    unfolding yieldpoint trigger_gc
    request_gc h = yieldpoint (record h { mutators = trigger_gc h.mutators })

    unfoldable pub global_loop : ℕ → Alloc → Alloc
    unfolding yieldpoint get_next_usable_block take_block
    global_loop zero again h layout = err out_of_fuel
    global_loop (suc fuel) again h layout = do
      h' ← yieldpoint h
      (new_block, space, mutators) ← get_next_usable_block I fuel h'.space h'.mutators
      let h'' = record h' { space = space; mutators = mutators }
      elim new_block [
        | some b ↦ again (take_block h'' b) layout
        | none ↦ global_loop fuel again h'' layout
      ]

    unfoldable pub alloc_from_global : ℕ → Alloc → Alloc
    unfolding global_loop return_block
    alloc_from_global fuel again h layout = global_loop fuel again (return_block h) layout

    unfoldable pub try_alloc_from_local : ℕ → Alloc → Alloc
    unfolding get_next_available_line take_hole alloc_from_global
    try_alloc_from_local fuel again h layout =
        if ltb h.local.line lines_in_block
        then (do
          b ← of_option panicked h.local.block
          opt_next_available_line ←
              get_next_available_line h.space.line_mark_table.cells b h.local.line
          elim opt_next_available_line [
            | some next_available_line ↦ do h' ← take_hole h b next_available_line; again h' layout
            | none ↦ alloc_from_global fuel again h layout
          ])
        else alloc_from_global fuel again h layout

    -- The fuel bounds the slow paths that follow one another.
    unfoldable pub alloc : ℕ → Alloc
    unfolding align_up plus try_alloc_from_local
    alloc zero h layout = err out_of_fuel
    alloc (suc fuel) h layout =
        let start = align_up h.local.cursor layout.align in
        let end = plus start layout.size in
        let slow = try_alloc_from_local fuel (alloc fuel) h layout in
        if leb end h.local.limit
        then ok (start, record h { local = record h.local { cursor = end } })
        else slow
