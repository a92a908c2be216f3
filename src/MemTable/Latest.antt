-- ===== src/MemTable/Latest.antt =====
-- `latest` of src/memtable.cpp.
use chronostore.Common.{ℕ, ◌≡◌, refl, sym, ◌∙◌, arith, true, none, some, []}
use chronostore.Order.{is_lt, int_ord}
use chronostore.OrderedMap.{find, last}
use chronostore.OrderedMap.Bounds.{last-greatest, last-none}
use chronostore.OrderedMap.Nested.{inner, inner-IsSorted}
use chronostore.Model.{SeriesKey, series_ord, Timestamp, Sample}
use chronostore.MemTable.{MemTable, SamplesByTimestamp, get, latest, sample_of}
use chronostore.MemTable.Get.{get-nested, to_sample}
use chronostore.MemTable.Range.{nested-find}
use chronostore.MemTable.Valid.{IsValid}

latest-inner :
    (t : MemTable) (s : SeriesKey)
    → latest t s
      ≡ elim (last (inner s t.table)) [ none ↦ none | some entry ↦ some (sample_of entry) ]
unfolding latest inner last
latest-inner t s = ground arith

last_entry :
    (m : SamplesByTimestamp) (sample : Sample)
    → elim (last m) [ none ↦ none | some entry ↦ some (sample_of entry) ] ≡ some sample
    → last m ≡ some (sample.timestamp, sample.value)
last_entry m sample h = ground arith

no_entry :
    (m : SamplesByTimestamp)
    → elim (last m) [ none ↦ none | some entry ↦ some (sample_of entry) ] ≡ none
    → last m ≡ none
no_entry m h = ground arith

find-nothing : (at : Timestamp) → to_sample at (find {V = ℕ} at []) ≡ none
unfolding find
find-nothing at = refl

-- The sample that `latest` returns on a valid table is what `get` finds at its timestamp, and `get`
-- finds nothing at any later one.
pub latest_greatest :
    (t : MemTable) (s : SeriesKey) (sample : Sample) (at : Timestamp)
    → IsValid t
    → latest t s ≡ some sample
    → is_lt sample.timestamp at ≡ true
    → (get t s sample.timestamp ≡ some sample) × (get t s at ≡ none)
latest_greatest t s sample at v h later =
    let m = inner s t.table in
    let found = last_entry m sample (sym (latest-inner t s) ∙ h) in
    let (there, above) =
      last-greatest m sample.timestamp sample.value (inner-IsSorted s t.table v.levels) found in
    (
      rw (get-nested t s sample.timestamp, nested-find s sample.timestamp t.table, there) refl,
      rw (get-nested t s at, nested-find s at t.table, above at later) refl,
    )

-- Where `latest` returns nothing, `get` finds nothing at any timestamp.
pub latest_none :
    (t : MemTable) (s : SeriesKey) (at : Timestamp) → latest t s ≡ none → get t s at ≡ none
latest_none t s at h =
    let nothing =
      last-none (inner s t.table) (no_entry (inner s t.table) (sym (latest-inner t s) ∙ h)) in
    rw (get-nested t s at, nested-find s at t.table, nothing) (find-nothing at)
