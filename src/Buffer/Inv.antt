-- ===== src/Buffer/Inv.antt =====
-- The invariant of include/io/Buffer.hpp: the indices stand in order within the storage.
use high_speed.Prelude.{◌≤◌, length}
use high_speed.Buffer.{Buffer, cheap_prepend, max_size}

pub record IsValid (b : Buffer) : Type 0 where
  pub prepend : cheap_prepend ≤ b.read_index
  pub ordered : b.read_index ≤ b.write_index
  pub within : b.write_index ≤ length b.buffer
  pub small : length b.buffer ≤ max_size
