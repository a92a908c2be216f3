-- ===== src/StorageEngine/ReadYourWrites.antt =====
-- `get` of src/storage_engine.cpp after `put`.
use chronostore.Common.{
  ℕ, [], ◌∷◌, suc, ◌%◌, ◌^◌, ◌≡◌, refl, arith, Bool, true, false, ◌&&◌, Option, none, some, List,
  if◌then◌else◌, Outcome, ok, throw, throw_if, ◌>>◌,
}
use chronostore.Order.{is_eq, int_ord}
use chronostore.Errors.{Exception, runtime_error}
use chronostore.Model.{SeriesKey, series_ord, Timestamp, Sample}
use chronostore.MemTable
use chronostore.MemTable.Get.{get-put}
use chronostore.StorageEngine.{
  StorageEngine, Answers, ensure_usable, contains, contains_in, contains_in_segments,
  contains_in_reversed, put, put_in_memory, reversed,
}
use chronostore.SegmentFile.Reader
use chronostore.SegmentFile.Reader.{SegmentReader}
use chronostore.StorageEngine.Query

-- What `put` has done where it returns.
pub put-eq-ok :
    (answers : Answers) (e : StorageEngine) (series : SeriesKey) (sample : Sample)
    (next : StorageEngine)
    → put answers e series sample ≡ (next, ok tt)
    → (already_exists : Bool) × (contains e series sample.timestamp ≡ ok already_exists)
      × (e.failed ≡ false)
      × (next.failed ≡ false)
      × (next.memtable ≡ MemTable.put e.memtable series sample)
      × (next.segments ≡ e.segments)
      × (next.logical_sample_count ≡ (
          if already_exists then e.logical_sample_count else suc e.logical_sample_count % 2 ^ 64))
unfolding put put_in_memory ensure_usable
put-eq-ok answers e series sample next h = by_presence (contains e series sample.timestamp) refl
  where
    by_presence :
        (presence : Outcome Exception Bool)
        → contains e series sample.timestamp ≡ presence
        → (already_exists : Bool) × (contains e series sample.timestamp ≡ ok already_exists)
          × (e.failed ≡ false)
          × (next.failed ≡ false)
          × (next.memtable ≡ MemTable.put e.memtable series sample)
          × (next.segments ≡ e.segments)
          × (next.logical_sample_count ≡ (
              if already_exists
              then e.logical_sample_count
              else suc e.logical_sample_count % 2 ^ 64))
    by_presence (throw exception) p = ground arith
    by_presence (ok already_exists) p =
        (already_exists, p, ground arith, ground arith, ground arith, ground arith, ground arith)

-- What `get` depends on.
answer :
    Bool
    → Option Sample
    → List SegmentReader
    → SeriesKey
    → Timestamp
    → Outcome Exception (Option Sample)
answer failed in_memory segments series timestamp =
    throw_if failed runtime_error >> elim in_memory [
      | some sample ↦ ok (some sample)
      | none ↦ Query.get_in_reversed (reversed segments) series timestamp
    ]

get-answer :
    (e : StorageEngine) (s : SeriesKey) (at : Timestamp)
    → Query.get e s at ≡ answer e.failed (MemTable.get e.memtable s at) e.segments s at
unfolding Query.get ensure_usable answer
get-answer e s at = refl

answer_found :
    (sample : Sample) (segments : List SegmentReader) (s : SeriesKey) (at : Timestamp)
    → answer false (some sample) segments s at ≡ ok (some sample)
unfolding answer
answer_found sample segments s at = refl

by_place :
    (here : Bool) (old : Option Sample) (sample : Sample) (segments : List SegmentReader)
    (s : SeriesKey) (at : Timestamp)
    → answer false (if here then some sample else old) segments s at
      ≡ (if here then ok (some sample) else answer false old segments s at)
by_place true old sample segments s at = answer_found sample segments s at
by_place false old sample segments s at = refl

-- Where `put` returns, a `get` at its series and timestamp answers the sample, and a `get` anywhere
-- else answers what it would have answered before.
pub get-put_engine :
    (answers : Answers) (e : StorageEngine) (series : SeriesKey) (sample : Sample)
    (next : StorageEngine) (s : SeriesKey) (at : Timestamp)
    → put answers e series sample ≡ (next, ok tt)
    → Query.get next s at
      ≡ (if is_eq series s && is_eq sample.timestamp at then ok (some sample) else Query.get e s at)
get-put_engine answers e series sample next s at h =
    let (already_exists, p, usable, still_usable, memory, segments, count) =
      put-eq-ok answers e series sample next h in
    rw
      (
        get-answer next s at,
        get-answer e s at,
        still_usable,
        usable,
        memory,
        segments,
        get-put e.memtable series s sample at,
      )
      (by_place (is_eq series s && is_eq sample.timestamp at) (MemTable.get e.memtable s at) sample
        e.segments s at)

abbrev is_found : Option Sample → Bool
is_found none = false
is_found (some sample) = true

-- What `contains` has looked for is what `get` finds.
abbrev IsAnswered : Outcome Exception (Option Sample) → Bool → Type 0
IsAnswered result exists = (found : Option Sample) × (result ≡ ok found) × (is_found found ≡ exists)

in_reversed :
    (segments : List SegmentReader) (s : SeriesKey) (at : Timestamp) (exists : Bool)
    → contains_in_reversed segments s at ≡ ok exists
    → IsAnswered (Query.get_in_reversed segments s at) exists
unfolding contains_in_reversed Query.get_in_reversed
in_reversed [] s at exists h = (none, refl, cc (h))
in_reversed (segment ∷ segments) s at exists h =
    by_segment (Reader.get segment s at) refl (in_reversed segments s at exists)
  where
    by_segment :
        (here : Outcome Exception (Option Sample))
        → Reader.get segment s at ≡ here
        → (contains_in_reversed segments s at ≡ ok exists
            → IsAnswered (Query.get_in_reversed segments s at) exists)
        → IsAnswered (Query.get_in_reversed (segment ∷ segments) s at) exists
    by_segment (throw x) e rest = absurd (ground arith)
    by_segment (ok (some sample)) e rest =
        (some sample, rw (Query.get_in_reversed, e) refl, ground arith)
    by_segment (ok none) e rest =
        let (found, g, b) = rest (ground arith) in (found, rw (Query.get_in_reversed, e, g) refl, b)

get-contains :
    (e : StorageEngine) (s : SeriesKey) (at : Timestamp) (exists : Bool)
    → e.failed ≡ false
    → contains e s at ≡ ok exists
    → IsAnswered (Query.get e s at) exists
unfolding contains contains_in contains_in_segments Query.get ensure_usable
get-contains e s at exists usable h = by_memory (MemTable.get e.memtable s at) refl
  where
    by_memory :
        (held : Option Sample)
        → MemTable.get e.memtable s at ≡ held
        → IsAnswered (Query.get e s at) exists
    by_memory (some sample) m = (some sample, ground arith, ground arith)
    by_memory none m =
        let (found, g, b) = in_reversed (reversed e.segments) s at exists (ground arith) in
        (found, ground (arith, g), b)

-- Where `put` returns and the engine counted `n` samples before, `get` answered before whether there
-- was a sample at the series and timestamp, and the engine counts one sample more, in 64 bits, where
-- there was none, and `n` again where there was one, in memory or in a segment.
pub sample_count-put :
    (answers : Answers) (e : StorageEngine) (series : SeriesKey) (sample : Sample)
    (next : StorageEngine) (n : ℕ)
    → put answers e series sample ≡ (next, ok tt)
    → Query.sample_count e ≡ ok n
    → (found : Option Sample) × (Query.get e series sample.timestamp ≡ ok found)
      × (Query.sample_count next ≡ ok (elim found [ none ↦ suc n % 2 ^ 64 | some there ↦ n ]))
unfolding Query.sample_count ensure_usable
sample_count-put answers e series sample next n h counted =
    let (exists, p, usable, still_usable, memory, segments, count) =
      put-eq-ok answers e series sample next h in
    let (found, g, b) = get-contains e series sample.timestamp exists usable p in
    (found, g, by_found found exists b still_usable count)
  where
    by_found :
        (found : Option Sample) (exists : Bool)
        → is_found found ≡ exists
        → next.failed ≡ false
        → next.logical_sample_count
          ≡ (if exists then e.logical_sample_count else suc e.logical_sample_count % 2 ^ 64)
        → Query.sample_count next ≡ ok (elim found [ none ↦ suc n % 2 ^ 64 | some there ↦ n ])
    by_found none exists b usable count = ground (arith, counted, usable, count, b)
    by_found (some x) exists b usable count = ground (arith, counted, usable, count, b)
