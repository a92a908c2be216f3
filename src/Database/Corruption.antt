-- ===== src/Database/Corruption.antt =====
-- The exceptions of the methods of src/database.cpp.
use chronostore.Common.{
  ◌≡◌, refl, arith, Bool, true, false, Option, none, some, ◌!=◌, Outcome, ok, throw, ◌>>=◌,
  Bool-cases, inl, inr,
}
use chronostore.Errors.{
  Exception, wal_format_error, segment_format_error, manifest_format_error, invalid_argument,
  length_error, overflow_error, logic_error, runtime_error, system_error, database_corruption_error,
  database_busy_error,
}
use chronostore.Model.{SeriesKey, Timestamp, Sample}
use chronostore.StorageEngine.{Answers}
use chronostore.StorageEngine
use chronostore.StorageEngine.Query
use chronostore.Database
use chronostore.Database.{
  Impl, translate_exception, translate_corruption, implementation, reaches_threshold, flush_if_full,
}

unfoldable pub is_format_error : Exception → Bool
is_format_error manifest_format_error = true
is_format_error segment_format_error = true
is_format_error (wal_format_error offset error) = true
is_format_error exception = false

unfoldable pub throws_format_error {ℓ} : {A : Type ℓ} → Outcome Exception A → Bool
unfolding is_format_error
throws_format_error (ok a) = false
throws_format_error (throw exception) = is_format_error exception

pub translated {ℓ} :
    {A : Type ℓ} (answer : Outcome Exception A)
    → throws_format_error (translate_corruption answer) ≡ false
unfolding throws_format_error is_format_error translate_corruption translate_exception
translated (ok a) = refl
translated (throw manifest_format_error) = refl
translated (throw segment_format_error) = refl
translated (throw (wal_format_error offset error)) = refl
translated (throw invalid_argument) = refl
translated (throw length_error) = refl
translated (throw overflow_error) = refl
translated (throw logic_error) = refl
translated (throw runtime_error) = refl
translated (throw system_error) = refl
translated (throw database_corruption_error) = refl
translated (throw database_busy_error) = refl

flush_translated :
    (answers : Answers) (database : Option Impl)
    → throws_format_error (Database.flush answers database).1 ≡ false
unfolding Database.flush implementation throws_format_error is_format_error
flush_translated answers none = refl
flush_translated answers (some impl) = translated _

compact_translated :
    (answers : Answers) (database : Option Impl)
    → throws_format_error (Database.compact answers database).1 ≡ false
unfolding Database.compact implementation throws_format_error is_format_error
compact_translated answers none = refl
compact_translated answers (some impl) = translated _

counted_translated : (impl : Impl) → throws_format_error (reaches_threshold impl) ≡ false
unfolding reaches_threshold throws_format_error is_format_error Query.memtable_sample_count
    StorageEngine.ensure_usable
counted_translated impl = elim (Bool-cases (impl.flush_threshold_samples != 0)) [
  | inl limited ↦ elim (Bool-cases impl.engine.failed) [
    | inl failed ↦ ground arith
    | inr usable ↦ ground arith
  ]
  | inr unlimited ↦ ground arith
]

flush_if_full_translated :
    (answers : Answers) (impl : Impl) → throws_format_error (flush_if_full answers impl).1 ≡ false
unfolding flush_if_full throws_format_error is_format_error
flush_if_full_translated answers impl = by_count (reaches_threshold impl) refl
  where
    by_count :
        (reached : Outcome Exception Bool)
        → reaches_threshold impl ≡ reached
        → throws_format_error (flush_if_full answers impl).1 ≡ false
    by_count (throw exception) h =
        let clean = counted_translated impl in rw (flush_if_full, h) (rw h at clean)
    by_count (ok false) h = rw (flush_if_full, h) refl
    by_count (ok true) h = rw (flush_if_full, h) (flush_translated answers (some impl))

put_translated :
    (put_answers flush_answers : Answers) (database : Option Impl) (series : SeriesKey)
    (sample : Sample)
    → throws_format_error (Database.put put_answers flush_answers database series sample).1 ≡ false
unfolding Database.put implementation throws_format_error is_format_error
put_translated put_answers flush_answers none series sample = refl
put_translated put_answers flush_answers (some impl) series sample = by_answer _ refl
  where
    by_answer :
        (answer : Outcome Exception (Unit {0}))
        → translate_corruption (StorageEngine.put put_answers impl.engine series sample).1 ≡ answer
        → throws_format_error (Database.put put_answers flush_answers (some impl) series sample).1
          ≡ false
    by_answer (throw e) h =
        let clean = translated (StorageEngine.put put_answers impl.engine series sample).1 in
        rw (Database.put, h) (rw h at clean)
    by_answer (ok u) h = rw (Database.put, h) (flush_if_full_translated flush_answers _)

query_translated {ℓ} :
    {A : Type ℓ} (database : Option Impl) (query : Impl → Outcome Exception A)
    → throws_format_error (implementation database >>= λ impl. translate_corruption (query impl))
      ≡ false
unfolding implementation throws_format_error is_format_error
query_translated none query = refl
query_translated (some impl) query = translated (query impl)

-- Whatever the system answers, no operation that reads or writes samples throws a format error of
-- the log, of a segment or of the manifest, also for a database that has been moved from.
pub no_format_error :
    (put_answers answers : Answers) (database : Option Impl) (series : SeriesKey) (sample : Sample)
    (timestamp start end : Timestamp)
    → (throws_format_error (Database.put put_answers answers database series sample).1 ≡ false)
      × (throws_format_error (Database.flush answers database).1 ≡ false)
      × (throws_format_error (Database.compact answers database).1 ≡ false)
      × (throws_format_error (Database.get database series timestamp) ≡ false)
      × (throws_format_error (Database.latest database series) ≡ false)
      × (throws_format_error (Database.range database series start end) ≡ false)
unfolding Database.get Database.latest Database.range
no_format_error put_answers answers database series sample timestamp start end = (
  put_translated put_answers answers database series sample,
  flush_translated answers database,
  compact_translated answers database,
  query_translated database (λ impl. Query.get impl.engine series timestamp),
  query_translated database (λ impl. Query.latest impl.engine series),
  query_translated database (λ impl. Query.range impl.engine series start end),
)
