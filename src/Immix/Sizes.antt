-- ===== src/Immix/Sizes.antt =====
-- src/heap/immix/mod.rs: the sizes of lines and blocks, and the state of a block.
use Prim.Native.Nat.{ℕ, ◌-◌, ◌^◌}

abbrev pub log_bytes_in_line : ℕ
log_bytes_in_line = 8

abbrev pub bytes_in_line : ℕ
bytes_in_line = 2 ^ log_bytes_in_line

abbrev pub log_bytes_in_block : ℕ
log_bytes_in_block = 16

abbrev pub bytes_in_block : ℕ
bytes_in_block = 2 ^ log_bytes_in_block

abbrev pub lines_in_block : ℕ
lines_in_block = 2 ^ (log_bytes_in_block - log_bytes_in_line)

pub data BlockMark : Type 0 where
  usable full : BlockMark
