-- ===== src/Examples/MemTable.antt =====
-- The table in memory on concrete inputs.
use chronostore.Common.{
  ◌≡◌, refl, Bool, true, false, not, ◌&&◌, Option, List, [], ◌∷◌, ok, some, none, if◌then◌else◌,
}
use chronostore.Order.{pos, is_lt, is_eq, int_ord}
use chronostore.OrderedMap.{find, assign, last, IsSorted}
use chronostore.OrderedMap.Nested.{inner}
use chronostore.Model.{Sample, Timestamp, series_ord}
use chronostore.MemTable
use chronostore.MemTable.{new, put, get, range, latest}
use chronostore.MemTable.Get.{put_all, newest, get-put, get-put_all, to_sample}
use chronostore.MemTable.Valid.{IsValid, put-IsValid, new-IsValid, put_all-newest}
use chronostore.MemTable.Range.{range_lem, by_timestamp}
use chronostore.MemTable.Latest.{latest_greatest}
use chronostore.Examples.{cpu, sample_one, sample_two}

abbrev one_entry : MemTable.MemTable
one_entry = put new cpu sample_one

one_entry-IsValid : IsValid one_entry
one_entry-IsValid = put-IsValid new cpu sample_one new-IsValid

get-put_example : get (put one_entry cpu sample_two) cpu (pos 20) ≡ (
    if is_eq cpu cpu && is_eq sample_two.timestamp (pos 20)
    then some sample_two
    else get one_entry cpu (pos 20))
get-put_example = get-put one_entry cpu cpu sample_two (pos 20)

get-put_all_example :
    get (put_all new ((cpu, sample_one) ∷ (cpu, sample_two) ∷ [])) cpu (pos 10)
    ≡ newest ((cpu, sample_one) ∷ (cpu, sample_two) ∷ []) cpu (pos 10) (get new cpu (pos 10))
get-put_all_example = get-put_all ((cpu, sample_one) ∷ (cpu, sample_two) ∷ []) new cpu (pos 10)

put-IsValid_example : IsValid (put one_entry cpu sample_two)
put-IsValid_example = put-IsValid one_entry cpu sample_two one_entry-IsValid

twice :
    (b : Bool) (x y : Option Sample)
    → (if b then x else (if b then x else y)) ≡ (if b then x else y)
twice true x y = refl
twice false x y = refl

-- A put that is repeated.
put_all-newest_example :
    put_all new ((cpu, sample_one) ∷ (cpu, sample_one) ∷ []) ≡ put_all new ((cpu, sample_one) ∷ [])
put_all-newest_example =
    put_all-newest new ((cpu, sample_one) ∷ (cpu, sample_one) ∷ []) ((cpu, sample_one) ∷ [])
      new-IsValid
      (λ s at.
        twice (is_eq cpu s && is_eq sample_one.timestamp at) (some sample_one) (get new s at))

range_example :
    (samples : List Sample) × (range one_entry cpu (pos 5) (pos 15) ≡ ok samples)
    × IsSorted (by_timestamp samples)
    × ((at : Timestamp)
        → to_sample at (find at (by_timestamp samples))
          ≡ (if not (is_lt at (pos 5)) && is_lt at (pos 15) then get one_entry cpu at else none))
range_example = range_lem one_entry cpu (pos 5) (pos 15) one_entry-IsValid refl

latest_example :
    (get one_entry cpu (pos 10) ≡ some sample_one) × (get one_entry cpu (pos 11) ≡ none)
latest_example =
    latest_greatest one_entry cpu sample_one (pos 11) one_entry-IsValid
      (unfold latest put inner find assign last in refl) refl
