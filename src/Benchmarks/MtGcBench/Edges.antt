-- ===== src/Benchmarks/MtGcBench/Edges.antt =====
-- src/rust_benchmarks: which words of a node the trace follows.
use mathlib.Core.List.{List}
use immix_rust.Common.TraceMap.{TraceMap}
