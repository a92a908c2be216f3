-- ===== src/MemTable.antt =====
-- src/memtable.cpp: the ordered table of the samples in memory. The values in it come from samples,
-- so building a `Sample` from an entry passes the test of its constructor. The counter is a
-- `std::size_t`, which a table in memory cannot bring to overflow.
pub mod Get
pub mod Valid
pub mod Range
pub mod Latest
use chronostore.Common.{
  ℕ, suc, Bool, Option, none, some, List, [], ◌∷◌, Outcome, ok, throw_if, ◌>>=◌, ◌>>◌, ◌==◌,
}
use mathlib.Core.List.{map}
use chronostore.Order.{is_lt, int_ord}
use chronostore.OrderedMap.{Map, find, assign, lower_bound, last}
use chronostore.OrderedMap.Nested.{inner}
use chronostore.Errors.{Exception, invalid_argument}
use chronostore.Model.{SeriesKey, series_ord, Timestamp, Sample}

-- `std::map<Timestamp, double>`
abbrev pub SamplesByTimestamp : Type 0
SamplesByTimestamp = Map Timestamp ℕ

pub record MemTableSeriesSnapshot : Type 0 where
  pub series : SeriesKey
  pub samples : List Sample

pub record MemTable : Type 0 where
  pub table : Map SeriesKey SamplesByTimestamp
  pub sample_count : ℕ

abbrev pub new : MemTable
new = record { table = []; sample_count = 0 }

abbrev pub sample_of : Timestamp × ℕ → Sample
sample_of (timestamp, value) = record { timestamp = timestamp; value = value }

-- `inner series t.table` is the map that `find` or `emplace` returns: the samples of the series, or
-- an empty map for a new one.
unfoldable pub put : MemTable → SeriesKey → Sample → MemTable
put t series sample =
    let samples = inner series t.table in
    let written = assign series (assign sample.timestamp sample.value samples) t.table in
    elim (find sample.timestamp samples) [
      | none ↦ record { table = written; sample_count = suc t.sample_count }
      | some old ↦ record { table = written; sample_count = t.sample_count }
    ]

unfoldable pub latest : MemTable → SeriesKey → Option Sample
latest t series = elim (find series t.table) [
  | none ↦ none
  | some samples ↦ elim (last samples) [ none ↦ none | some entry ↦ some (sample_of entry) ]
]

unfoldable pub get : MemTable → SeriesKey → Timestamp → Option Sample
get t series timestamp = elim (find series t.table) [
  | none ↦ none
  | some samples ↦ elim (find timestamp samples) [
    | none ↦ none
    | some value ↦ some (record { timestamp = timestamp; value = value })
  ]
]

-- The loop from `lower_bound(start)` until a timestamp is not before `end`.
unfoldable pub until : Timestamp → SamplesByTimestamp → List Sample
until end [] = []
until end ((timestamp, value) ∷ rest) = elim (is_lt timestamp end) [
  | Bool.false ↦ []
  | Bool.true ↦ record { timestamp = timestamp; value = value } ∷ until end rest
]

unfoldable pub range :
    MemTable → SeriesKey → Timestamp → Timestamp → Outcome Exception (List Sample)
unfolding until
range t series start end = do
  throw_if (is_lt end start) invalid_argument
  elim (find series t.table) [
    | none ↦ ok []
    | some samples ↦ ok (until end (lower_bound start samples))
  ]

unfoldable pub empty : MemTable → Bool
empty t = t.sample_count == 0

-- `series()`
unfoldable pub known_series : MemTable → List SeriesKey
known_series t = map (λ entry. entry.0) t.table

unfoldable pub snapshot : MemTable → List MemTableSeriesSnapshot
snapshot t = map (λ entry. record { series = entry.0; samples = map sample_of entry.1 }) t.table

unfoldable pub clear : MemTable → MemTable
clear t = record { table = []; sample_count = 0 }
