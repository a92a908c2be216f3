-- ===== src/MemTable/Range.antt =====
-- `range` of src/memtable.cpp.
use chronostore.Common.{
  ℕ, ◌≡◌, refl, arith, Bool, true, false, not, ◌&&◌, Option, none, List, [], ◌∷◌, if◌then◌else◌, ok,
  throw,
}
use chronostore.Order.{is_lt, int_ord}
use chronostore.OrderedMap.{Map, find, lower_bound, IsSorted}
use chronostore.OrderedMap.Bounds.{
  find-lower_bound, lower_bound-IsSorted, take_until, find-take_until, take_until-IsSorted,
}
use chronostore.OrderedMap.Nested.{inner, nested, inner-IsSorted}
use chronostore.Errors.{invalid_argument}
use chronostore.Model.{SeriesKey, series_ord, Timestamp, Sample}
use chronostore.MemTable.{MemTable, SamplesByTimestamp, get, until, range}
use chronostore.MemTable.Get.{get-nested, to_sample}
use chronostore.MemTable.Valid.{IsValid}

-- A list of samples read as a map from timestamps.
abbrev pub by_timestamp : List Sample → SamplesByTimestamp
by_timestamp [] = []
by_timestamp (sample ∷ samples) = (sample.timestamp, sample.value) ∷ by_timestamp samples

until-take_until :
    (end : Timestamp) (m : SamplesByTimestamp) → by_timestamp (until end m) ≡ take_until end m
unfolding until take_until
until-take_until end [] = refl
until-take_until end ((at, value) ∷ m) = ground (arith, until-take_until end m)

-- What `range` puts together for a series.
abbrev interval : Timestamp → Timestamp → SamplesByTimestamp → List Sample
interval start end samples = until end (lower_bound start samples)

range-inner :
    (t : MemTable) (s : SeriesKey) (start end : Timestamp)
    → is_lt end start ≡ false
    → range t s start end ≡ ok (interval start end (inner s t.table))
unfolding range inner lower_bound until
range-inner t s start end h = ground arith

-- `range` throws `invalid_argument` exactly when the interval ends before it starts.
pub range_ends_before_start :
    (t : MemTable) (s : SeriesKey) (start end : Timestamp)
    → is_lt end start ≡ true
    → range t s start end ≡ throw invalid_argument
unfolding range
range_ends_before_start t s start end h = rw h refl

by_timestamp-IsSorted :
    (t : MemTable) (s : SeriesKey) (start end : Timestamp)
    → IsValid t
    → IsSorted (by_timestamp (interval start end (inner s t.table)))
by_timestamp-IsSorted t s start end v =
    rw (until-take_until end (lower_bound start (inner s t.table)))
      (take_until-IsSorted end _ (lower_bound-IsSorted start _ (inner-IsSorted s t.table v.levels)))

pub nested-find :
    (s : SeriesKey) (at : Timestamp) (m : Map SeriesKey SamplesByTimestamp)
    → nested s at m ≡ find at (inner s m)
unfolding nested
nested-find s at m = refl

to_sample-interval :
    (at : Timestamp) (before inside : Bool) (found : Option ℕ)
    → to_sample at (if inside then (if before then none else found) else none)
      ≡ (if not before && inside then to_sample at found else none)
to_sample-interval at true true found = refl
to_sample-interval at true false found = refl
to_sample-interval at false true found = refl
to_sample-interval at false false found = refl

-- On a valid table and an interval that does not end before it starts, `range` returns samples in
-- strictly increasing order of time, and a timestamp is among them exactly when it is in the
-- half-open interval and `get` finds a sample there, which is then the same one.
pub range_lem :
    (t : MemTable) (s : SeriesKey) (start end : Timestamp)
    → IsValid t
    → is_lt end start ≡ false
    → (samples : List Sample) × (range t s start end ≡ ok samples)
      × IsSorted (by_timestamp samples)
      × ((at : Timestamp)
          → to_sample at (find at (by_timestamp samples))
            ≡ (if not (is_lt at start) && is_lt at end then get t s at else none))
range_lem t s start end v h =
    let m = inner s t.table in
    let sorted = inner-IsSorted s t.table v.levels in
    (
      interval start end m,
      range-inner t s start end h,
      by_timestamp-IsSorted t s start end v,
      λ at.
          rw
            (
              until-take_until end (lower_bound start m),
              find-take_until end at (lower_bound start m) (lower_bound-IsSorted start m sorted),
              find-lower_bound start at m sorted,
              get-nested t s at,
              nested-find s at t.table,
            )
            (to_sample-interval at (is_lt at start) (is_lt at end) (find at m)),
    )
