-- ===== src/Immix.antt =====
-- src/heap/immix: the space, its blocks and lines, and the allocator of a mutator.
pub mod Sizes
pub mod Globals
pub mod LineMark
pub mod Block
pub mod Space
pub mod Mutator
