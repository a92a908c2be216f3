-- ===== src/MemTable/Get.antt =====
-- `get` of src/memtable.cpp after `put`.
use chronostore.Common.{
  ℕ, ◌≡◌, refl, ap, ◌∙◌, arith, Bool, true, false, ◌&&◌, Option, none, some, List, [], ◌∷◌,
  if◌then◌else◌,
}
use chronostore.Order.{is_eq, int_ord}
use chronostore.OrderedMap.{assign}
use chronostore.OrderedMap.Nested.{inner, nested, nested-assign}
use chronostore.OrderedMap.Lookup.{find-below}
use chronostore.Model.{SeriesKey, series_ord, Timestamp, Sample}
use chronostore.Order.{compare_ℤ-eq}
use chronostore.MemTable.{MemTable, put, get}

abbrev pub to_sample : Timestamp → Option ℕ → Option Sample
to_sample timestamp none = none
to_sample timestamp (some value) = some (record { timestamp = timestamp; value = value })

-- `get` reads the value at the two keys.
pub get-nested :
    (t : MemTable) (s : SeriesKey) (at : Timestamp)
    → get t s at ≡ to_sample at (nested s at t.table)
unfolding get nested inner
get-nested t s at = ground (arith, find-below {V = ℕ} at [] tt)

pub table-put :
    (t : MemTable) (series : SeriesKey) (sample : Sample)
    → (put t series sample).table
      ≡ assign series (assign sample.timestamp sample.value (inner series t.table)) t.table
unfolding put
table-put t series sample = ground arith

to_sample_hit :
    (sample : Sample) (at : Timestamp)
    → is_eq sample.timestamp at ≡ true
    → to_sample at (some sample.value) ≡ some sample
to_sample_hit sample at h = ground (arith, compare_ℤ-eq sample.timestamp at)

to_sample-if :
    (a b : Bool) (sample : Sample) (at : Timestamp) (old : Option ℕ)
    → is_eq sample.timestamp at ≡ b
    → to_sample at (if a && b then some sample.value else old)
      ≡ (if a && b then some sample else to_sample at old)
to_sample-if true true sample at old h = to_sample_hit sample at h
to_sample-if true false sample at old h = refl
to_sample-if false b sample at old h = refl

-- After `put` the sample stands at its series and timestamp, and nothing else has changed.
pub get-put :
    (t : MemTable) (series s : SeriesKey) (sample : Sample) (at : Timestamp)
    → get (put t series sample) s at
      ≡ (if is_eq series s && is_eq sample.timestamp at then some sample else get t s at)
get-put t series s sample at =
    rw
      (
        get-nested (put t series sample) s at,
        get-nested t s at,
        table-put t series sample,
        nested-assign series s sample.timestamp at sample.value t.table,
      )
      (to_sample-if (is_eq series s) (is_eq sample.timestamp at) sample at _ refl)

-- Replaying writes one after the other, as recovery does.
unfoldable pub put_all : MemTable → List (SeriesKey × Sample) → MemTable
put_all t [] = t
put_all t ((series, sample) ∷ writes) = put_all (put t series sample) writes

-- The newest of the writes at a series and timestamp: the abstract view of a table.
abbrev pub newest :
    List (SeriesKey × Sample) → SeriesKey → Timestamp → Option Sample → Option Sample
newest [] s at old = old
newest ((series, sample) ∷ writes) s at old =
    newest writes s at (if is_eq series s && is_eq sample.timestamp at then some sample else old)

-- After any writes `get` answers the newest write at the series and timestamp, and what the table
-- held before where there is none.
pub get-put_all :
    (writes : List (SeriesKey × Sample)) (t : MemTable) (s : SeriesKey) (at : Timestamp)
    → get (put_all t writes) s at ≡ newest writes s at (get t s at)
unfolding put_all
get-put_all [] t s at = refl
get-put_all ((series, sample) ∷ writes) t s at =
    get-put_all writes (put t series sample) s at
    ∙ ap (newest writes s at) (get-put t series s sample at)
