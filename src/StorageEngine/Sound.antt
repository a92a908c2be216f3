-- ===== src/StorageEngine/Sound.antt =====
-- The invariant of the engine: its files determine it, its table in memory is valid, and no more
-- samples are counted than the segments and the table hold.
pub mod Segments
pub mod Put
pub mod Flush
pub mod Reach
use chronostore.Common.{ℕ, ◌+◌, ◌^◌, ◌<◌, ◌≤◌, List, [], ◌∷◌, All}
use chronostore.Model.{IsByte}
use chronostore.MemTable.Valid
use chronostore.SegmentFile.Reader.{SegmentReader}
use chronostore.StorageEngine.{StorageEngine}
use chronostore.StorageEngine.Durable.{IsDurable}
use chronostore.StorageEngine.Flushed.Constructed.{IsConstructed}

-- The samples that the segments hold, counted once for each segment that has them.
abbrev pub physical : List SegmentReader → ℕ
physical [] = 0
physical (segment ∷ segments) = segment.sample_count + physical segments

pub record IsSound (e : StorageEngine) : Type 0 where
  pub durable : IsDurable e
  pub memory_valid : Valid.IsValid e.memtable
  pub memory_constructed : IsConstructed e.memtable
  pub count_fits : e.logical_sample_count < 2 ^ 64
  pub name_bytes : All (All IsByte) e.manifest.segment_files
  pub covered : e.logical_sample_count ≤ physical e.segments + e.memtable.sample_count
