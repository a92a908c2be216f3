-- ===== src/SegmentFile/Lookup/Get.antt =====
-- The steps of `SegmentReader::get` beside those of the search through blocks.
use chronostore.Common.{
  ℕ, ◌+◌, ◌≤◌, ◌≡◌, refl, sym, ap, ◌∙◌, arith, ◌⊎◌, inl, inr, Bool, true, false, ◌||◌, ◌&&◌, Option,
  none, some, List, [], ◌∷◌, length, if◌then◌else◌, All, Outcome, ok, Bool-cases, ◌>>=◌,
}
use chronostore.Order.{
  is_lt, is_le, is_eq, int_ord, squeezed, lt_of_above, lt_of_lt_ge, ge_of_ge, is_eq-of_lt, lt_of_ne,
  not_lt_of_lt, not_lt_of_eq, is_eq_self, is_eq→eq,
}
use chronostore.Model.{SeriesKey, Timestamp, Sample, series_ord}
use chronostore.SegmentBlock
use chronostore.SegmentBlock.{
  SegmentBlock, front_timestamp, back_timestamp, first_timestamp, last_timestamp,
}
use chronostore.SegmentBlockCodec.Layout.{IsBlock, block_bytes, sample_count_bounds}
use chronostore.SegmentFile.{SegmentIndexEntry}
use chronostore.SegmentFile.Reader.{SegmentReader, read_block, sample_at, get_from}
use chronostore.Errors.{Exception}
use chronostore.SegmentFile.Lookup.{
  find_at, or_else, found_in, lookup, none_before, none_after, sample_at-find_at,
}
use chronostore.SegmentFile.Stored.{IsStored}
use chronostore.SegmentFile.Write.{has_disorder}
use chronostore.SegmentFile.Write.Entries.{entry_of, entries_of, ordered_samples, ends_in_order}

or_false : (a b c : Bool) → (a || b || c) ≡ false → (a ≡ false) × (b ≡ false) × (c ≡ false)
or_false a b c h = ground arith

false_of_both : (a b : Bool) → a ≡ true → (a && b) ≡ false → b ≡ false
false_of_both a b h k = ground arith

pub or_else_none : (o : Option Sample) → or_else o none ≡ o
or_else_none none = refl
or_else_none (some x) = refl

-- One round of the loop of `get`, by its three tests.
abbrev Found : Type 0
Found = Outcome Exception (Option Sample)

abbrev choose : Bool → Bool → Bool → Found → Found → Found
choose false before after rest read = ok none
choose true true after rest read = ok none
choose true false true rest read = rest
choose true false false rest read = read

module _ (same before after : Bool) (rest read answer : Found) where
  choose_other : same ≡ false → ok none ≡ answer → choose same before after rest read ≡ answer
  choose_other h k = rw h k

  choose_before :
      same ≡ true → before ≡ true → ok none ≡ answer → choose same before after rest read ≡ answer
  choose_before h k l = rw (h, k) l

  choose-after :
      same ≡ true
      → before ≡ false
      → after ≡ true
      → rest ≡ answer
      → choose same before after rest read ≡ answer
  choose-after h k l m = rw (h, k, l) m

  choose_read :
      same ≡ true
      → before ≡ false
      → after ≡ false
      → read ≡ answer
      → choose same before after rest read ≡ answer
  choose_read h k l m = rw (h, k, l) m

pub by_series : (same : Bool) {o : Option Sample} → o ≡ none → (if same then o else none) ≡ none
by_series true h = h
by_series false h = refl

module _ (s : SeriesKey) (at : Timestamp) where
  -- The block is behind the place of the sample.
  abbrev IsBeyond : SegmentBlock → Type 0
  IsBeyond b = (is_lt s b.series ≡ true) ⊎ (b.series ≡ s) × (is_lt at (first_timestamp b) ≡ true)

  before_samples :
      (xs : List Sample)
      → 1 ≤ length xs
      → SegmentBlock.has_disorder xs ≡ false
      → is_lt at (front_timestamp xs) ≡ true
      → find_at at xs ≡ none
  before_samples [] n h l = absurd (omega arith)
  before_samples (x ∷ xs) n h l = none_before at x xs h l

  after_samples :
      (xs : List Sample)
      → 1 ≤ length xs
      → SegmentBlock.has_disorder xs ≡ false
      → is_lt (back_timestamp xs) at ≡ true
      → find_at at xs ≡ none
  after_samples [] n h l = absurd (omega arith)
  after_samples (x ∷ xs) n h l = (none_after at x xs h l).1

  block_order :
      (b c : SegmentBlock) (bs : List SegmentBlock)
      → has_disorder (b ∷ c ∷ bs) ≡ false
      → (is_lt c.series b.series ≡ false)
        × ((is_eq c.series b.series && is_le (first_timestamp c) (last_timestamp b)) ≡ false)
        × (has_disorder (c ∷ bs) ≡ false)
  unfolding has_disorder
  block_order b c bs h = or_false (is_lt c.series b.series) _ (has_disorder (c ∷ bs)) h

  -- A block that is not before the place of the sample is followed by one behind it.
  next-IsBeyond :
      (b c : SegmentBlock) (bs : List SegmentBlock)
      → has_disorder (b ∷ c ∷ bs) ≡ false
      → is_lt b.series s ≡ false
      → is_lt (last_timestamp b) at ≡ false
      → IsBeyond c
  next-IsBeyond b c bs h k l =
      let (upward, later, rest) = block_order b c bs h in
      elim (Bool-cases (is_lt s c.series)) [
        | inl above ↦ inl above
        | inr level ↦
            let (b_here, c_here) = squeezed s b.series c.series upward k level in
            let same : is_eq c.series b.series ≡ true = rw (b_here, c_here) (is_eq_self s) in
            inr (
              c_here,
              lt_of_above at (last_timestamp b) (first_timestamp c) l
                  (false_of_both _ _ same later),
            )
      ]

  IsBeyond-next :
      (b c : SegmentBlock) (bs : List SegmentBlock)
      → IsBlock b
      → has_disorder (b ∷ c ∷ bs) ≡ false
      → IsBeyond b
      → IsBeyond c
  unfolding first_timestamp last_timestamp
  IsBeyond-next b c bs v h (inl above) =
      inl (lt_of_lt_ge s b.series c.series above (block_order b c bs h).0)
  IsBeyond-next b c bs v h (inr (here, before)) =
      let ends = ends_in_order b.samples (ordered_samples b v) in
      let behind =
        lt_of_lt_ge at (front_timestamp b.samples) (back_timestamp b.samples) before ends in
      next-IsBeyond b c bs h (not_lt_of_eq b.series s here)
        (not_lt_of_lt at (back_timestamp b.samples) behind)

  not_found : (b : SegmentBlock) → IsBlock b → IsBeyond b → found_in b s at ≡ none
  unfolding first_timestamp
  not_found b v (inl above) = rw (is_eq-of_lt s b.series above) refl
  not_found b v (inr (here, before)) =
      rw (here, is_eq_self s)
        (before_samples b.samples (sample_count_bounds b v).0 (ordered_samples b v) before)

  passed_by :
      (b : SegmentBlock) → IsBlock b → is_lt (last_timestamp b) at ≡ true → found_in b s at ≡ none
  unfolding last_timestamp
  passed_by b v after =
      by_series (is_eq b.series s)
        (after_samples b.samples (sample_count_bounds b v).0 (ordered_samples b v) after)

  -- Nothing is found from a block on that is behind the place of the sample.
  pub lookup_beyond :
      (b : SegmentBlock) (bs : List SegmentBlock)
      → All IsBlock (b ∷ bs)
      → has_disorder (b ∷ bs) ≡ false
      → IsBeyond b
      → lookup (b ∷ bs) s at ≡ none
  lookup_beyond b [] v h beyond = ap (λ o. or_else o none) (not_found b v.0 beyond)
  lookup_beyond b (c ∷ bs) v h beyond =
      ap (λ o. or_else o (lookup (c ∷ bs) s at)) (not_found b v.0 beyond)
      ∙ lookup_beyond c bs v.1 (block_order b c bs h).2 (IsBeyond-next b c bs v.0 h beyond)

  -- What is behind the block that has to hold the sample does not matter.
  lookup_here :
      (b : SegmentBlock) (bs : List SegmentBlock)
      → All IsBlock (b ∷ bs)
      → has_disorder (b ∷ bs) ≡ false
      → is_lt b.series s ≡ false
      → is_lt (last_timestamp b) at ≡ false
      → lookup (b ∷ bs) s at ≡ found_in b s at
  lookup_here b [] v h k l = or_else_none (found_in b s at)
  lookup_here b (c ∷ bs) v h k l =
      let nothing = lookup_beyond c bs v.1 (block_order b c bs h).2 (next-IsBeyond b c bs h k l) in
      ap (or_else (found_in b s at)) nothing ∙ or_else_none (found_in b s at)

  -- No block before the first of the series is left.
  abbrev IsFrom : List SegmentBlock → Type 0
  IsFrom [] = Unit
  IsFrom (b ∷ bs) = is_lt b.series s ≡ false

  IsFrom-next :
      (b : SegmentBlock) (bs : List SegmentBlock)
      → has_disorder (b ∷ bs) ≡ false
      → IsFrom (b ∷ bs)
      → IsFrom bs
  IsFrom-next b [] h k = tt
  IsFrom-next b (c ∷ bs) h k = ge_of_ge s b.series c.series k (block_order b c bs h).0

  pub ordered_rest :
      (b : SegmentBlock) (bs : List SegmentBlock)
      → has_disorder (b ∷ bs) ≡ false
      → has_disorder bs ≡ false
  ordered_rest b [] h = unfold has_disorder in refl
  ordered_rest b (c ∷ bs) h = (block_order b c bs h).2

  module _ (reader : SegmentReader) where
    get_from-step :
        (entry : SegmentIndexEntry) (entries : List SegmentIndexEntry)
        → get_from reader s at (entry ∷ entries)
          ≡ choose
              (is_eq entry.series s)
              (is_lt at entry.first_timestamp)
              (is_lt entry.last_timestamp at)
              (get_from reader s at entries)
              (read_block reader entry >>= λ block. ok (sample_at at block.samples))
    unfolding get_from
    get_from-step entry entries = ground arith

    read_here :
        (offset : ℕ) (b : SegmentBlock)
        → IsBlock b
        → read_block reader (entry_of offset b) ≡ ok b
        → is_eq b.series s ≡ true
        → (read_block reader (entry_of offset b) >>= λ block. ok (sample_at at block.samples))
          ≡ ok (found_in b s at)
    read_here offset b v h same =
        rw (h, same) (ap ok (sample_at-find_at at b.samples (ordered_samples b v)))

    pub get_from-entries_of :
        (offset : ℕ) (blocks : List SegmentBlock)
        → IsStored reader offset blocks
        → All IsBlock blocks
        → has_disorder blocks ≡ false
        → IsFrom blocks
        → get_from reader s at (entries_of offset blocks) ≡ ok (lookup blocks s at)
    get_from-entries_of offset [] stored v h k = unfold get_from in refl
    get_from-entries_of offset (b ∷ bs) stored v h k =
        let next = offset + length (block_bytes b) in
        get_from-step (entry_of offset b) (entries_of next bs)
        ∙ elim (Bool-cases (is_eq b.series s)) [
          | inr other ↦
              let above = lt_of_ne b.series s k other in
              let nothing = lookup_beyond b bs v h (inl above) in
              choose_other _ _ _ _ _ _ other (ap ok (sym nothing))
          | inl here ↦ elim (Bool-cases (is_lt at (first_timestamp b))) [
            | inl before ↦
                let nothing = lookup_beyond b bs v h (inr (is_eq→eq b.series s here, before)) in
                choose_before _ _ _ _ _ _ here before (ap ok (sym nothing))
            | inr reached ↦ elim (Bool-cases (is_lt (last_timestamp b) at)) [
              | inl after ↦
                  let rest =
                    get_from-entries_of next bs stored.1 v.1 (ordered_rest b bs h)
                      (IsFrom-next b bs h k) in
                  choose-after _ _ _ _ _ _ here reached after
                    (rest ∙ ap (λ o. ok (or_else o (lookup bs s at))) (sym (passed_by b v.0 after)))
              | inr inside ↦ choose_read _ _ _ _ _ _ here reached inside (
                  read_here offset b v.0 stored.0 here
                  ∙ ap ok (sym (lookup_here b bs v h k inside)))
            ]
          ]
        ]
