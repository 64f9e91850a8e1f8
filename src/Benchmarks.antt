-- ===== src/Benchmarks.antt =====
-- src/rust_benchmarks: the programs that build trees with the library.
pub mod GcBench
pub mod MtGcBench
