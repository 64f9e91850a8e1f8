-- ===== src/Lib.antt =====
-- immix-rust, a library for an Immix garbage collector: the space of blocks and lines, the allocator of
-- a thread, and the tables that are indexed by address.
--
-- The program. An `ImmixSpace` is memory from one mmap, cut into blocks of 64 KiB, each of 256 lines of
-- 256 bytes. Its line mark table has a byte for each line, its trace map and its allocation map have a
-- byte for each word. A thread allocates through an `ImmixMutatorLocal`: it bumps a cursor through a
-- hole of free lines of its block, goes to the next hole of the block when the hole is full, and takes
-- another block from the queue of usable blocks, through a yield point, when the block is. An empty
-- queue asks every registered mutator to yield (`trigger_gc`), and the mutators then meet in
-- `sync_barrier`, where one of them traces and sweeps.
--
-- Which file models which part.
--   Prelude: tests on numbers, lists, and `Outcome`, which is what a call comes to: a value, or a panic,
--     an access outside an allocation, or the end of the fuel.
--   Crossbeam: the injector queue of the crate crossbeam, as an interface with its documented laws.
--   Common/Address: src/common/mod.rs, `Address` (plus, diff, align_up, null) and `ObjectReference`.
--   Common/AddressMap, Common/SafeAddressMap, Common/TraceMap: src/common/address_map.rs, each type with
--     the functions of the same name.
--   ObjectModel: src/objectmodel.rs, the encoding bits and `get_ref_byte`.
--   Immix/Sizes: src/heap/immix/mod.rs. Immix/LineMark: src/heap/immix/line_mark.rs.
--   Immix/Block, Immix/Space, Immix/Space/Sweep: src/heap/immix/immix_space.rs: `ImmixBlock`; `new`,
--     `init_blocks`, `return_used_block`, `get_next_usable_block`; `sweep`.
--   Immix/Globals, Immix/Mutator: src/heap/immix/immix_mutator.rs: `ImmixMutatorGlobal` and the table
--     `MUTATORS` (with `trigger_gc` of src/heap/gc/mod.rs); `ImmixMutatorLocal`.
--   Crossbeam/Batch: the same queue as several threads use it at once.
--   Gc/Roots: src/heap/gc/mod.rs, `is_valid_object` and `stack_scan`.
--   Gc/Collection: src/heap/gc/mod.rs, `gc`, with the trace as the relation below.
--   Gc/Barrier: src/heap/gc/mod.rs, `sync_barrier` and `block_current_thread`, with the registration and
--     the destruction of mutators of src/heap/immix/immix_mutator.rs, as a step relation.
--   Gc/Trace: src/heap/gc/multi_thread_trace.rs, the workers of `start_trace` as a step relation.
--   Benchmarks: src/rust_benchmarks, the two programs that build trees with the library.
--   Tests: the model run on small inputs.
-- The files below a part's file hold its theorems.
--
-- How the model reads the code. The release build on a machine of 64 bits is modelled: arithmetic on
-- `usize` wraps at 2 ^ 64, `debug_assert!` and the prints of a debug build are absent. A raw pointer is
-- the list of the cells of its allocation, and an access outside it is the failure `out_of_bounds`. A
-- slice of the line mark table is an offset and a length, and reads the cells of the table itself. The
-- address that mmap returns and the index that the arena gives are arguments. In the allocator's section
-- `sync_barrier`, where other threads act, is a parameter; theorems that need something of it say so. A
-- mutator's step is a step of the heap that it shares; between two of its operations the other threads
-- act in the barrier only, as each of them writes its own block.
--
-- Bounds and fuel. The scans get as many rounds as lines are left, `init_blocks` as many as blocks fit
-- below the end of the space, and the stack scan one more than words fit below the low water mark: no
-- loop takes more. `get_next_usable_block` and `sweep` have an argument for fuel, for which one more than
-- the blocks and the retries is enough; a theorem that they return names it. `alloc` has one for the slow
-- paths in a row, since it may wait for a collection without end.
--
-- The trace is a relation: each constructor of `Move` is one access of one worker to what the workers
-- share, and a run interleaves the workers in any order; the marks of an object's two lines count as one
-- access, since no worker reads a line mark. A panic ends the worker and leaves the counter as it is.
--
-- The barrier is a relation too: each constructor of `Act` is one access of one thread, and a `History`
-- interleaves any number of mutators, up to the bound `slots`, with those that register. Between two
-- visits a thread may allocate and change its stack as it likes (`work`); `stacks` is what `stack_scan`
-- finds for each. The source lets a mutator register at any moment. Most theorems ask that none does
-- while a collection is under way (`Orderly`), and Tests/Barriers shows what happens when one does.
--
-- Not modelled: how src/heap/gc/mod.rs finds the stack pointer and the low water mark, the freeing of
-- memory, printing, the other benchmarks, the C prototype in c_src and the C interface.
pub mod Prelude
pub mod Crossbeam
pub mod Common
pub mod ObjectModel
pub mod Immix
pub mod Gc
pub mod Benchmarks
mod Tests
