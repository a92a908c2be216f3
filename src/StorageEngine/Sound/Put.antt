-- ===== src/StorageEngine/Sound/Put.antt =====
-- `put` and `sync` of src/storage_engine.cpp and the invariant of the engine.
use chronostore.Common.{
  ℕ, suc, ◌+◌, ◌%◌, ◌^◌, ◌<◌, ◌≤◌, ◌≡◌, refl, sym, ap, ◌∙◌, arith, Bool, true, false, Option, none,
  some, Outcome, ok, throw, if◌then◌else◌,
}
use mathlib.Core.Path.{subst}
use chronostore.Order.{int_ord}
use chronostore.Errors.{Exception}
use chronostore.Model.{SeriesKey, Sample, series_ord, IsSeries, IsSample}
use chronostore.MemTable
use chronostore.MemTable.Valid.{put-IsValid}
use chronostore.MemTable.Get.{get-nested}
use chronostore.OrderedMap.{find}
use chronostore.OrderedMap.Nested.{nested, inner}
use chronostore.StorageEngine.{
  StorageEngine, Answers, ensure_usable, contains, contains_in, put, put_in_memory, sync,
}
use chronostore.StorageEngine.Durable.Kept.{put-IsDurable, sync_returns}
use chronostore.StorageEngine.Flushed.Constructed.{put-IsConstructed}
use chronostore.StorageEngine.ReadYourWrites.{put-eq-ok}
use chronostore.StorageEngine.Sound.{IsSound, physical}

put_keeps_manifest :
    (answers : Answers) (e next : StorageEngine) (series : SeriesKey) (sample : Sample)
    → put answers e series sample ≡ (next, ok tt)
    → next.manifest ≡ e.manifest
unfolding put put_in_memory ensure_usable
put_keeps_manifest answers e next series sample h =
    by_presence (contains e series sample.timestamp) refl
  where
    by_presence :
        (presence : Outcome Exception Bool)
        → contains e series sample.timestamp ≡ presence
        → next.manifest ≡ e.manifest
    by_presence (throw x) p = ground arith
    by_presence (ok b) p = ground arith

-- A table grows by one sample where it has none at the place.
count-put :
    (t : MemTable.MemTable) (series : SeriesKey) (sample : Sample)
    → (t.sample_count ≤ (MemTable.put t series sample).sample_count)
      × (MemTable.get t series sample.timestamp ≡ none
          → (MemTable.put t series sample).sample_count ≡ suc t.sample_count)
unfolding MemTable.put nested
count-put t series sample = by_old (find sample.timestamp (inner series t.table)) refl
  where
    by_old :
        (old : Option ℕ)
        → find sample.timestamp (inner series t.table) ≡ old
        → (t.sample_count ≤ (MemTable.put t series sample).sample_count)
          × (MemTable.get t series sample.timestamp ≡ none
              → (MemTable.put t series sample).sample_count ≡ suc t.sample_count)
    by_old none o = (ground arith, λ absent. ground arith)
    by_old (some value) o =
        (ground arith, λ absent. absurd (ground (arith, get-nested t series sample.timestamp)))

-- What is not contained is not in memory.
not_contained :
    (e : StorageEngine) (series : SeriesKey) (sample : Sample)
    → contains e series sample.timestamp ≡ ok false
    → MemTable.get e.memtable series sample.timestamp ≡ none
unfolding contains contains_in
not_contained e series sample h = by_memory (MemTable.get e.memtable series sample.timestamp) refl
  where
    by_memory :
        (found : Option Sample)
        → MemTable.get e.memtable series sample.timestamp ≡ found
        → MemTable.get e.memtable series sample.timestamp ≡ none
    by_memory none m = m
    by_memory (some x) m = absurd (ground arith)

count_bounds :
    (already_exists : Bool) (count stored old new : ℕ)
    → count < 2 ^ 64
    → count ≤ stored + old
    → old ≤ new
    → (already_exists ≡ false → new ≡ suc old)
    → ((if already_exists then count else suc count % 2 ^ 64) < 2 ^ 64)
      × ((if already_exists then count else suc count % 2 ^ 64) ≤ stored + new)
count_bounds true count stored old new f c g n = (f, omega arith)
count_bounds false count stored old new f c g n = (omega arith, omega (arith, n refl))

-- Where a `put` of a constructed series key and sample returns, the invariant holds again.
pub put-IsSound :
    (answers : Answers) (e next : StorageEngine) (series : SeriesKey) (sample : Sample)
    → IsSound e
    → IsSeries series
    → IsSample sample
    → put answers e series sample ≡ (next, ok tt)
    → IsSound next
put-IsSound answers e next series sample v s x h =
    let (already_exists, there, _, _, memory, segments, count) =
      put-eq-ok answers e series sample next h in
    let manifest = put_keeps_manifest answers e next series sample h in
    let (grows, new) = count-put e.memtable series sample in
    let bounds =
      count_bounds already_exists e.logical_sample_count (physical e.segments)
        e.memtable.sample_count (MemTable.put e.memtable series sample).sample_count v.count_fits
        v.covered grows (λ absent. new (not_contained e series sample (there ∙ ap ok absent))) in
    record {
      durable = put-IsDurable answers e next series sample v.durable s x h;
      memory_valid = rw memory (put-IsValid e.memtable series sample v.memory_valid);
      memory_constructed =
          rw memory (put-IsConstructed e.memtable series sample v.memory_constructed s x);
      count_fits = rw count bounds.0;
      name_bytes = rw manifest v.name_bytes;
      covered = rw (count, segments, memory) bounds.1;
    }

-- A `sync` that returns changes nothing.
pub sync-IsSound :
    (answers : Answers) (e next : StorageEngine)
    → IsSound e
    → sync answers e ≡ (next, ok tt)
    → IsSound next
sync-IsSound answers e next v h = subst IsSound (sym (sync_returns answers e next h)) v
