-- ===== src/Lib.antt =====
-- ChronoStore, a store of time series: samples are put into a write-ahead log and a table in memory;
-- a flush writes the table to an immutable segment file and names it in the manifest; a compaction
-- merges the segments; opening a database reads the manifest and the segments and replays the log.
--
-- The files, in the order of what they need:
--   Common, Bits, Order, OrderedMap: helpers. `Outcome` is a value or an exception; `Ord` is an order
--   that compares in three ways; an ordered map (`std::map`) is the list of its entries.
--   Errors: the exceptions, without their messages, and the errors of the decoders.
--   Model: include/chronostore/model.hpp and src/model.cpp. A string is the list of its bytes, a
--   timestamp an integer of nanoseconds, a `double` its bit pattern.
--   ByteCodec: src/byte_codec.cpp. Crc32c: src/crc32c.cpp. SeriesCodec: the code for series keys that
--   src/segment_file.cpp, src/segment_block_codec.cpp and src/wal_record.cpp share in substance.
--   WalRecord: src/wal_record.cpp. WalRecovery: src/wal_recovery.cpp. MemTable: src/memtable.cpp.
--   WalFile: src/wal_file.cpp, with the loops around the system calls in WalFile/Loops.
--   FileAccess: src/file_io.cpp.
--   Manifest: src/manifest.cpp. SegmentBlock: src/segment_block.cpp. SegmentBlockCodec:
--   src/segment_block_codec.cpp. SegmentFile: src/segment_file.cpp, with the index, the writer and
--   the reader in child modules.
--   StorageEngine: src/storage_engine.cpp, with the flush, the compaction, the queries and the
--   recovery in child modules. StorageEngine/Durable is about engines whose files determine them,
--   StorageEngine/Flushed about the flush, StorageEngine/Sound about the engines that operations
--   lead to.
--   Database: src/database.cpp, with the constructor and the lock of src/database_lock.cpp in
--   Database/Open.
--   Examples: concrete inputs.
-- A module Layout has the documented bytes of a format, and RoundTrip is about reading them.
-- An operation has the name of its function; a class is a record of its members, and a method that
-- changes it returns the changed record. A method that may both change the object and throw returns
-- the object and an `Outcome`.
--
-- The replay of a log runs on fuel, two rounds for each byte of the file and two more: a round
-- consumes a record, reads a chunk or notices the end of the file. The cutting of samples into
-- blocks runs on the number of the samples.
--
-- What the system answers is a parameter: whether a write, a synchronization, a truncation or the
-- opening of a log succeeds, how many bytes a failing write has written, and how an atomic write of
-- a file ends. FileAccess and WalFile/Loops go one level deeper, to the answer of each call, on a
-- POSIX system. Not modelled are errors of inspecting and reading the manifest, the segments and the
-- log that is replayed, the files that a constructor leaves where it throws, the text of messages,
-- and memory that runs out. The engine's lock lets one changing operation run at a time, so
-- operations are functions on the state. The command line, the viewer and the benchmark are not
-- modelled.
pub mod Bits
pub mod ByteCodec
pub mod Common
pub mod Crc32c
pub mod Database
pub mod Errors
pub mod Examples
pub mod FileAccess
pub mod Manifest
pub mod MemTable
pub mod Model
pub mod Order
pub mod OrderedMap
pub mod SegmentBlock
pub mod SegmentBlockCodec
pub mod SegmentFile
pub mod SeriesCodec
pub mod StorageEngine
pub mod WalFile
pub mod WalRecord
pub mod WalRecovery
