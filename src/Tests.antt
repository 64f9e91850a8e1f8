-- ===== src/Tests.antt =====
-- Runs of the model on small inputs, and the theorems at such inputs.
mod Maps
mod Spaces
mod Allocations
mod Roots
mod Traces
mod Collections
mod Barriers
mod Trees
mod KeptTrees
