-- ===== src/Database.antt =====
-- src/database.cpp: the public class. `none` stands for a database that has been moved from.
pub mod Corruption
pub mod Open
pub mod Exclusive
use chronostore.Common.{
  ℕ, Bool, true, false, Option, none, some, List, leb, ◌!=◌, Outcome, ok, throw, ◌>>=◌,
}
use chronostore.Errors.{
  Exception, logic_error, wal_format_error, segment_format_error, manifest_format_error,
  database_corruption_error,
}
use chronostore.Model.{SeriesKey, Timestamp, Sample}
use chronostore.WalFile.{WalDurability}
use chronostore.StorageEngine.{StorageEngine, Answers}
use chronostore.StorageEngine
use chronostore.StorageEngine.Flush
use chronostore.StorageEngine.Compact
use chronostore.StorageEngine.Query

pub data Durability : Type 0 where
  buffered sync_on_write : Durability

unfoldable pub to_internal_durability : Durability → WalDurability
to_internal_durability buffered = WalDurability.buffered
to_internal_durability sync_on_write = WalDurability.sync_on_append

pub record Impl : Type 0 where
  pub engine : StorageEngine
  pub flush_threshold_samples : ℕ

-- The three handlers.
unfoldable pub translate_exception : Exception → Exception
translate_exception manifest_format_error = database_corruption_error
translate_exception segment_format_error = database_corruption_error
translate_exception (wal_format_error offset error) = database_corruption_error
translate_exception exception = exception

unfoldable pub translate_corruption {ℓ} : {A : Type ℓ} → Outcome Exception A → Outcome Exception A
unfolding translate_exception
translate_corruption (ok a) = ok a
translate_corruption (throw exception) = throw (translate_exception exception)

unfoldable pub implementation : Option Impl → Outcome Exception Impl
implementation none = throw logic_error
implementation (some impl) = ok impl

abbrev with_engine : Impl → StorageEngine → Option Impl
with_engine impl engine =
    some (record { engine = engine; flush_threshold_samples = impl.flush_threshold_samples })

-- `impl.flush_threshold_samples != 0U && ...`
unfoldable pub reaches_threshold : Impl → Outcome Exception Bool
reaches_threshold impl = elim (impl.flush_threshold_samples != 0) [
  | false ↦ ok false
  | true ↦ Query.memtable_sample_count impl.engine >>= λ count.
      ok (leb impl.flush_threshold_samples count)
]

unfoldable pub flush : Answers → Option Impl → Option Impl × Outcome Exception (Unit {0})
unfolding implementation translate_corruption
flush answers database = elim (implementation database) [
  | throw exception ↦ (database, throw exception)
  | ok impl ↦
      let (engine, answer) = Flush.flush answers impl.engine in
      (with_engine impl engine, translate_corruption answer)
]

-- The second statement of `put`; each statement has its own answers of the system.
unfoldable pub flush_if_full : Answers → Impl → Option Impl × Outcome Exception (Unit {0})
unfolding reaches_threshold flush
flush_if_full answers impl = elim (reaches_threshold impl) [
  | throw exception ↦ (some impl, throw exception)
  | ok false ↦ (some impl, ok tt)
  | ok true ↦ flush answers (some impl)
]

unfoldable pub put :
    Answers
    → Answers
    → Option Impl
    → SeriesKey
    → Sample
    → Option Impl × Outcome Exception (Unit {0})
unfolding implementation translate_corruption flush_if_full
put put_answers flush_answers database series sample = elim (implementation database) [
  | throw exception ↦ (database, throw exception)
  | ok impl ↦
      let (engine, answer) = StorageEngine.put put_answers impl.engine series sample in
      elim (translate_corruption answer) [
        | throw exception ↦ (with_engine impl engine, throw exception)
        | ok _ ↦
            flush_if_full flush_answers
              (record { engine = engine; flush_threshold_samples = impl.flush_threshold_samples })
      ]
]

unfoldable pub sync : Answers → Option Impl → Option Impl × Outcome Exception (Unit {0})
unfolding implementation
sync answers database = elim (implementation database) [
  | throw exception ↦ (database, throw exception)
  | ok impl ↦
      let (engine, answer) = StorageEngine.sync answers impl.engine in
      (with_engine impl engine, answer)
]

unfoldable pub compact : Answers → Option Impl → Option Impl × Outcome Exception (Unit {0})
unfolding implementation translate_corruption
compact answers database = elim (implementation database) [
  | throw exception ↦ (database, throw exception)
  | ok impl ↦
      let (engine, answer) = Compact.compact answers impl.engine in
      (with_engine impl engine, translate_corruption answer)
]

unfoldable pub latest : Option Impl → SeriesKey → Outcome Exception (Option Sample)
unfolding implementation translate_corruption
latest database series =
    implementation database >>= λ impl. translate_corruption (Query.latest impl.engine series)

unfoldable pub get : Option Impl → SeriesKey → Timestamp → Outcome Exception (Option Sample)
unfolding implementation translate_corruption
get database series timestamp = implementation database >>= λ impl.
    translate_corruption (Query.get impl.engine series timestamp)

unfoldable pub range :
    Option Impl → SeriesKey → Timestamp → Timestamp → Outcome Exception (List Sample)
unfolding implementation translate_corruption
range database series start end = implementation database >>= λ impl.
    translate_corruption (Query.range impl.engine series start end)

-- `series()`
unfoldable pub known_series : Option Impl → Outcome Exception (List SeriesKey)
unfolding implementation
known_series database = implementation database >>= λ impl. Query.known_series impl.engine

unfoldable pub sample_count : Option Impl → Outcome Exception ℕ
unfolding implementation
sample_count database = implementation database >>= λ impl. Query.sample_count impl.engine

unfoldable pub empty : Option Impl → Outcome Exception Bool
unfolding implementation
empty database = implementation database >>= λ impl. Query.empty impl.engine

pub record DatabaseStats : Type 0 where
  pub sample_count : ℕ
  pub memtable_sample_count : ℕ
  pub segment_count : ℕ
  pub wal_size_bytes : ℕ

unfoldable pub stats : Option Impl → Outcome Exception DatabaseStats
unfolding implementation
stats database = do
  impl ← implementation database
  stats ← Query.stats impl.engine
  ok (record {
    sample_count = stats.sample_count;
    memtable_sample_count = stats.memtable_sample_count;
    segment_count = stats.segment_count;
    wal_size_bytes = stats.wal_size_bytes;
  })
