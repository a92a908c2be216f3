-- ===== src/WalRecovery/Round.antt =====
-- One round of the loop of `replay_wal`: what it does on an incomplete record, at the end of the file
-- and on a complete record, and what it makes of the state.
use chronostore.Common.{
  ℕ, suc, ◌+◌, ◌*◌, ◌%◌, ◌^◌, ◌<◌, ◌≤◌, ◌≡◌, inl, inr, refl, ap, sym, ◌∙◌, arith, true, false, [],
  ◌++◌, append_assoc, length, length-append, length-take, length-drop, take, drop, take-append-drop,
  ltb, ltb-true, ltb-false, ltb→lt, ltb→le, Bool-cases, ◌==◌, if◌then◌else◌, Outcome, ok, throw,
  ◌>>=◌,
}
use chronostore.Errors.{Exception, WalDecodeError}
use chronostore.Model.{Bytes}
use chronostore.WalRecord.{WalPutRecord, decode_frame}
use chronostore.WalRecovery.{
  Replay, Iteration, returned, continued, replay_iteration, replay_available, replay_record,
  replay_error, replay_decoded, read_more, read_next_chunk, remove_consumed_prefix, read_chunk_size,
}
use chronostore.WalRecovery.Slices.{
  drop_all, drop_none, drop-drop, ==_pos, ==→le, decode_wal_record-throw, decode_wal_record-ok,
}

-- Bytes in which no record is complete.
abbrev pub IsIncomplete : Bytes → Type 0
IsIncomplete bytes = decode_frame bytes ≡ throw WalDecodeError.incomplete_record

module _ {S : Type 0} (replay : S → WalPutRecord → Outcome Exception S) where
  abbrev pub available : Replay S → Bytes
  available state = drop state.consumed state.buffer

  -- What an iteration measures.
  abbrev pub measure : Replay S → ℕ
  measure state =
      2 * length state.input + length (available state) + (if state.reached_end then 0 else 1)

  pub record IsValid (state : Replay S) : Type 0 where
    pub consumed_within : state.consumed ≤ length state.buffer
    pub end_empties : state.reached_end ≡ true → state.input ≡ []
    pub no_tail_yet : state.result.incomplete_tail_bytes ≡ 0

  -- The state after `read_more`.
  abbrev pub more : Replay S → Replay S
  more state = record {
    input = drop read_chunk_size state.input;
    buffer = available state ++ take read_chunk_size state.input;
    consumed = 0;
    reached_end = ltb (length state.input) read_chunk_size;
    result = state.result;
    caller = state.caller;
  }

  pub remove_prefix :
      (buffer : Bytes) (consumed : ℕ)
      → consumed ≤ length buffer
      → remove_consumed_prefix buffer consumed ≡ drop consumed buffer
  unfolding remove_consumed_prefix
  remove_prefix buffer consumed h = elim (Bool-cases (consumed == length buffer)) [
    | inl all ↦ ground (arith, drop_all consumed buffer)
    | inr some_left ↦ ground (arith, drop_none consumed buffer)
  ]

  pub read_more-more :
      (state : Replay S) → IsValid state → read_more replay state ≡ continued (more state)
  unfolding read_more read_next_chunk
  read_more-more state v = rw (remove_prefix state.buffer state.consumed v.consumed_within) refl

  pub more-IsValid : (state : Replay S) → IsValid state → IsValid (more state)
  more-IsValid state v = record {
    consumed_within = omega arith;
    end_empties = λ h.
        drop_all read_chunk_size state.input
          (omega (arith, ltb→lt (length state.input) read_chunk_size h));
    no_tail_yet = v.no_tail_yet;
  }

  pub more-stream :
      (state : Replay S)
      → available (more state) ++ (more state).input ≡ available state ++ state.input
  more-stream state =
      append_assoc (available state) (take read_chunk_size state.input) _
      ∙ ap (λ t. available state ++ t) (take-append-drop read_chunk_size state.input)

  pub more-measure :
      (state : Replay S) → state.reached_end ≡ false → suc (measure (more state)) ≤ measure state
  more-measure state h =
      let chunk = take read_chunk_size state.input in
      let sizes = length-append (available state) chunk in
      let taken = length-take read_chunk_size state.input in
      let left = length-drop read_chunk_size state.input in
      elim (Bool-cases (ltb (length state.input) read_chunk_size)) [
        | inl last ↦
            rw (last, h)
              (omega (arith, sizes, taken, left, ltb→lt (length state.input) read_chunk_size last))
        | inr full ↦
            rw (full, h)
              (omega (arith, sizes, taken, left, ltb→le (length state.input) read_chunk_size full))
      ]

  -- An incomplete record before the end of the file makes the loop read on.
  pub iteration_more :
      (state : Replay S)
      → IsValid state
      → state.reached_end ≡ false
      → IsIncomplete (available state)
      → replay_iteration replay state ≡ ok (continued (more state))
  unfolding replay_iteration replay_available replay_decoded replay_error
  iteration_more state v h i = elim (Bool-cases (ltb state.consumed (length state.buffer))) [
    | inl some_left ↦
        rw
          (
            some_left,
            decode_wal_record-throw (available state) WalDecodeError.incomplete_record i,
            h,
            read_more-more state v,
          )
          refl
    | inr all ↦ rw (all, h, read_more-more state v) refl
  ]

  -- At the end of the file an incomplete record ends the replay.
  abbrev pub ended : Replay S → Iteration S
  ended state =
      returned
        (record {
          records_replayed = state.result.records_replayed;
          valid_bytes = state.result.valid_bytes;
          incomplete_tail_bytes = length (available state);
        })
        state.caller

  pub iteration_end :
      (state : Replay S)
      → IsValid state
      → state.reached_end ≡ true
      → IsIncomplete (available state)
      → replay_iteration replay state ≡ ok (ended state)
  unfolding replay_iteration replay_available replay_decoded replay_error
  iteration_end state v h i = elim (Bool-cases (ltb state.consumed (length state.buffer))) [
    | inl some_left ↦
        rw
          (
            some_left,
            decode_wal_record-throw (available state) WalDecodeError.incomplete_record i,
            h,
            length-drop state.consumed state.buffer,
          )
          refl
    | inr all ↦
        rw (all, h)
          (ap
            (λ (tail : ℕ). ok (
              returned
                (record {
                  records_replayed = state.result.records_replayed;
                  valid_bytes = state.result.valid_bytes;
                  incomplete_tail_bytes = tail;
                })
                state.caller))
            (omega (
              arith,
              v.no_tail_yet,
              length-drop state.consumed state.buffer,
              ltb→le state.consumed (length state.buffer) all,
            )))
  ]

  -- The state after a record of `n` bytes.
  abbrev pub passed : Replay S → ℕ → S → Replay S
  passed state n caller =
      let consumed = state.consumed + n in
      let all = consumed == length state.buffer in
      record {
        input = state.input;
        buffer = if all then [] else state.buffer;
        consumed = if all then 0 else consumed;
        reached_end = state.reached_end;
        result = record {
          records_replayed = suc state.result.records_replayed % 2 ^ 64;
          valid_bytes = (state.result.valid_bytes + n) % 2 ^ 64;
          incomplete_tail_bytes = state.result.incomplete_tail_bytes;
        };
        caller = caller;
      }

  pub iteration_record :
      (state : Replay S) (r : WalPutRecord) (n : ℕ)
      → 0 < n
      → n ≤ length (available state)
      → decode_frame (available state) ≡ ok (r, n)
      → replay_iteration replay state
        ≡ (replay state.caller r >>= λ caller. ok (continued (passed state n caller)))
  unfolding replay_iteration replay_available replay_decoded replay_record
  iteration_record state r n positive within d =
      let left = length-drop state.consumed state.buffer in
      rw
        (
          ltb-true state.consumed (length state.buffer) (omega (arith, left)),
          decode_wal_record-ok (available state) r n d,
          ==_pos n positive,
          ltb-false (length (available state)) n within,
        )
        refl

  pub available-passed :
      (state : Replay S) (n : ℕ) (caller : S)
      → available (passed state n caller) ≡ drop n (available state)
  available-passed state n caller = elim (Bool-cases (state.consumed + n == length state.buffer)) [
    | inl all ↦ rw all (
        sym (
          drop_all (state.consumed + n) state.buffer
            (==→le (state.consumed + n) (length state.buffer) all))
        ∙ drop-drop state.consumed n state.buffer)
    | inr some_left ↦ rw some_left (drop-drop state.consumed n state.buffer)
  ]

  pub passed-IsValid :
      (state : Replay S) (n : ℕ) (caller : S)
      → IsValid state
      → n ≤ length (available state)
      → IsValid (passed state n caller)
  passed-IsValid state n caller v within =
      let left = length-drop state.consumed state.buffer in
      record {
        consumed_within = elim (Bool-cases (state.consumed + n == length state.buffer)) [
          | inl all ↦ rw all (omega arith)
          | inr some_left ↦ rw some_left (omega (arith, left, v.consumed_within))
        ];
        end_empties = v.end_empties;
        no_tail_yet = v.no_tail_yet;
      }
