-- ===== src/MemTable/Valid.antt =====
-- The invariant of the table of src/memtable.cpp: ordered at both levels, no series without samples,
-- and a counter that counts the entries.
use chronostore.Common.{ℕ, ◌≡◌, refl, ap, sym, ◌∙◌, arith, Option, none, some, List, [], ◌∷◌}
use chronostore.Order.{int_ord}
use chronostore.OrderedMap.{IsSorted}
use chronostore.OrderedMap.Lookup.{assign-IsSorted}
use chronostore.OrderedMap.Nested.{
  with_new, nested, total, IsNested, assign_inside-IsNested, total-assign_inside, nested_ext,
}
use chronostore.Model.{SeriesKey, series_ord, Timestamp, Sample}
use chronostore.MemTable.{MemTable, new, put, get, clear}
use chronostore.MemTable.Get.{table-put, put_all, newest, to_sample, get-nested, get-put_all}

pub record IsValid (t : MemTable) : Type 0 where
  pub sorted : IsSorted t.table
  pub levels : IsNested t.table
  pub counted : t.sample_count ≡ total t.table

count-put :
    (t : MemTable) (series : SeriesKey) (sample : Sample)
    → (put t series sample).sample_count
      ≡ with_new (nested series sample.timestamp t.table) t.sample_count
unfolding put nested
count-put t series sample = ground arith

-- `put` keeps the table ordered at both levels and the counter exact.
pub put-IsValid :
    (t : MemTable) (series : SeriesKey) (sample : Sample)
    → IsValid t
    → IsValid (put t series sample)
put-IsValid t series sample v = record {
  sorted = rw (table-put t series sample) (assign-IsSorted series _ t.table v.sorted);
  levels =
      rw (table-put t series sample)
        (assign_inside-IsNested series sample.timestamp sample.value t.table v.levels);
  counted =
      count-put t series sample
      ∙ ap (with_new (nested series sample.timestamp t.table)) v.counted
      ∙ sym (
          ap total (table-put t series sample)
          ∙ total-assign_inside series sample.timestamp sample.value t.table v.sorted v.levels);
}

pub new-IsValid : IsValid new
new-IsValid = record { sorted = tt; levels = tt; counted = unfold total in refl }

-- Every table that writes build from the empty one is valid.
pub put_all-IsValid :
    (writes : List (SeriesKey × Sample)) (t : MemTable) → IsValid t → IsValid (put_all t writes)
unfolding put_all
put_all-IsValid [] t v = v
put_all-IsValid ((series, sample) ∷ writes) t v =
    put_all-IsValid writes (put t series sample) (put-IsValid t series sample v)

pub clear-IsValid : (t : MemTable) → IsValid (clear t)
unfolding clear
clear-IsValid t = new-IsValid

to_sample-injective : (at : Timestamp) (a b : Option ℕ) → to_sample at a ≡ to_sample at b → a ≡ b
to_sample-injective at none none h = refl
to_sample-injective at none (some y) h = cc
to_sample-injective at (some x) none h = cc
to_sample-injective at (some x) (some y) h = cc

table_ext :
    (t u : MemTable)
    → IsValid t
    → IsValid u
    → ((s : SeriesKey) (at : Timestamp) → get t s at ≡ get u s at)
    → t ≡ u
table_ext t u v w h =
    let values = λ (s : SeriesKey) (at : Timestamp).
      to_sample-injective at _ _ (rw (get-nested t s at, get-nested u s at) at (h s at)) in
    let tables = nested_ext t.table u.table v.sorted w.sorted v.levels w.levels values in
    cc (tables, ap total tables, v.counted, w.counted)

-- Two sequences of puts into a valid table that leave the same newest write at every series and
-- timestamp make the same table, its order and its counter included: the order of the puts leaves no
-- other trace.
pub put_all-newest :
    (t : MemTable) (writes others : List (SeriesKey × Sample))
    → IsValid t
    → ((s : SeriesKey) (at : Timestamp)
        → newest writes s at (get t s at) ≡ newest others s at (get t s at))
    → put_all t writes ≡ put_all t others
put_all-newest t writes others v same =
    table_ext (put_all t writes) (put_all t others) (put_all-IsValid writes t v)
      (put_all-IsValid others t v)
      (λ s at. get-put_all writes t s at ∙ same s at ∙ sym (get-put_all others t s at))
