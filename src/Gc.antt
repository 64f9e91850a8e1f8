-- ===== src/Gc.antt =====
-- src/heap/gc: how a collection finds its roots.
pub mod Roots
pub mod Trace
pub mod Collection
pub mod Barrier
