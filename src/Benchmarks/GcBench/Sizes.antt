-- ===== src/Benchmarks/GcBench/Sizes.antt =====
-- src/rust_benchmarks/gcbench.rs: the numbers of nodes and of rounds.
