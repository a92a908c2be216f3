-- ===== src/Model/Canonical.antt =====
-- The constructor of series keys of src/model.cpp.
use mathlib.Core.List.{Perm}
use native.Mathlib.Decide.{ℕ_discrete}
use mathlib.Core.HLevel.{hedberg}
use chronostore.Common.{◌≡◌, refl, arith, false, List, [], ◌∷◌, All, ok}
use chronostore.Order.{list_ord, nat_ord}
use chronostore.Order.Sort.{sort, sort-perm, sort-strict, sort-IsWeak, sort-All, IsStrict, IsWeak}
use chronostore.Model.{Bytes, Tag, SeriesKey, tag_ord, make_series_key, has_duplicate_key}
use chronostore.Model.{IsByte, IsTag, IsSeries, KeysIncrease}

Tag-discrete : Discrete Tag
Tag-discrete = hlevel ℕ_discrete

tags_set : IsSet (List Tag)
tags_set = hedberg (hlevel Tag-discrete)

-- The order of the tags does not matter: any rearrangement of them gives the same series key, or
-- the same exception.
pub make_series_key-perm :
    (measurement : Bytes) (tags tags' : List Tag)
    → Perm tags tags'
    → make_series_key measurement tags ≡ make_series_key measurement tags'
unfolding make_series_key
make_series_key-perm measurement tags tags' p = rw (sort-perm tags tags' tags_set p)

increasing-IsStrict : (tags : List Tag) → KeysIncrease tags → IsStrict tags
increasing-IsStrict [] h = tt
increasing-IsStrict (s ∷ []) h = tt
increasing-IsStrict (s ∷ t ∷ ts) h = (ground arith, increasing-IsStrict (t ∷ ts) h.1)

increasing-no_duplicate : (tags : List Tag) → KeysIncrease tags → has_duplicate_key tags ≡ false
unfolding has_duplicate_key
increasing-no_duplicate [] h = refl
increasing-no_duplicate (s ∷ []) h = refl
increasing-no_duplicate (s ∷ t ∷ ts) h = ground (arith, increasing-no_duplicate (t ∷ ts) h.1)

weak-increasing :
    (tags : List Tag) → IsWeak tags → has_duplicate_key tags ≡ false → KeysIncrease tags
unfolding has_duplicate_key
weak-increasing [] w h = tt
weak-increasing (s ∷ []) w h = tt
weak-increasing (s ∷ t ∷ ts) w h = ground (arith, weak-increasing (t ∷ ts) w.1)

-- A canonical series key is rebuilt from its own parts unchanged.
pub make_series_key_self :
    (s : SeriesKey) → IsSeries s → make_series_key s.measurement s.tags ≡ ok s
unfolding make_series_key
make_series_key_self s v = rw (
  sort-strict s.tags (increasing-IsStrict s.tags v.keys_increase),
  v.measurement_nonempty,
  increasing-no_duplicate s.tags v.keys_increase,
)

-- A series key that is constructed from valid tags is canonical.
pub make_series_key-IsSeries :
    (measurement : Bytes) (tags : List Tag) (s : SeriesKey)
    → All IsByte measurement
    → All IsTag tags
    → make_series_key measurement tags ≡ ok s
    → IsSeries s
unfolding make_series_key
make_series_key-IsSeries measurement tags s bytes valid h =
    ground (arith, sort-All IsTag tags valid, weak-increasing (sort tags) (sort-IsWeak tags))
