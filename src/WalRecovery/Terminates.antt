-- ===== src/WalRecovery/Terminates.antt =====
-- The rounds of the loop of `replay_wal` of src/wal_recovery.cpp, counted.
use chronostore.Common.{
  ℕ, zero, suc, ◌+◌, ◌*◌, ◌<◌, ◌≤◌, ◌≡◌, ◌≢◌, inl, inr, refl, ap, sym, ◌∙◌, arith, none, [], length,
  length-drop, ltb, ltb→le, Bool-cases, Outcome, ok, throw, ◌>>=◌,
}
use chronostore.Errors.{Exception, WalDecodeError}
use chronostore.Model.{Bytes}
use chronostore.WalRecord.{WalPutRecord, decode_frame}
use chronostore.WalRecord.Frame.{decode_frame_size}
use chronostore.WalRecovery.{
  Replay, Iteration, returned, continued, replay_iteration, replay_available, replay_loop,
  replay_wal, replay_start, replay_error, replay_decoded,
}
use chronostore.WalRecovery.Slices.{drop_all, decode_wal_record-throw}
use chronostore.WalRecovery.Round.{
  available, measure, IsValid, more-IsValid, more-measure, iteration_more, iteration_end, passed,
  iteration_record, passed-IsValid, available-passed,
}
use chronostore.WalRecovery.Records.{follow, loop-step}

nothing_incomplete : decode_frame [] ≡ throw WalDecodeError.incomplete_record
unfolding decode_frame
nothing_incomplete = refl

module _ {S : Type 0} (replay : S → WalPutRecord → Outcome Exception S) where
  -- What a round leads to: the end of the loop, or a valid state of a smaller measure.
  abbrev IsProgress : Replay S → Outcome Exception (Iteration S) → Type 0
  IsProgress state (throw e) = Unit
  IsProgress state (ok (returned result caller)) = Unit
  IsProgress state (ok (continued next)) =
      IsValid replay next × (measure replay next < measure replay state)

  from_iteration :
      (state : Replay S) (iteration : Outcome Exception (Iteration S))
      → replay_iteration replay state ≡ iteration
      → IsProgress state iteration
      → IsProgress state (replay_iteration replay state)
  from_iteration state iteration e p = rw e p

  -- An error that is not an incomplete record ends the replay.
  error_stops :
      (state : Replay S) (error : WalDecodeError)
      → decode_frame (available replay state) ≡ throw error
      → error ≢ WalDecodeError.incomplete_record
      → IsProgress state (replay_iteration replay state)
  unfolding replay_iteration replay_available replay_decoded replay_error
  error_stops state error d other = elim (Bool-cases (ltb state.consumed (length state.buffer))) [
    | inl some_left ↦
        rw (some_left, decode_wal_record-throw (available replay state) error d)
          (thrown error other)
    | inr all ↦
        let nothing =
          drop_all state.consumed state.buffer (ltb→le state.consumed (length state.buffer) all) in
        absurd (other (cc (sym d ∙ ap decode_frame nothing ∙ nothing_incomplete)))
  ]
    where
      thrown :
          (x : WalDecodeError)
          → x ≢ WalDecodeError.incomplete_record
          → IsProgress state (replay_error replay state x)
      thrown WalDecodeError.none h = tt
      thrown WalDecodeError.invalid_magic h = tt
      thrown WalDecodeError.unsupported_version h = tt
      thrown WalDecodeError.unsupported_record_type h = tt
      thrown WalDecodeError.invalid_length h = tt
      thrown WalDecodeError.checksum_mismatch h = tt
      thrown WalDecodeError.invalid_payload h = tt
      thrown WalDecodeError.incomplete_record h = absurd (h refl)

  record_advances :
      (state : Replay S) (r : WalPutRecord) (n : ℕ)
      → IsValid replay state
      → decode_frame (available replay state) ≡ ok (r, n)
      → IsProgress state (replay_iteration replay state)
  record_advances state r n v d = by_callback (replay state.caller r) refl
    where
      sizes : (18 ≤ n) × (n ≤ length (available replay state))
      sizes = decode_frame_size (available replay state) r n d

      round :
          replay_iteration replay state
          ≡ (replay state.caller r >>= λ caller. ok (continued (passed replay state n caller)))
      round = iteration_record replay state r n (omega (arith, sizes.0)) sizes.1 d

      smaller : (caller : S) → measure replay (passed replay state n caller) < measure replay state
      smaller caller = omega (
        arith,
        ap length (available-passed replay state n caller),
        length-drop n (available replay state),
        sizes.0,
        sizes.1,
      )

      by_callback :
          (o : Outcome Exception S)
          → replay state.caller r ≡ o
          → IsProgress state (replay_iteration replay state)
      by_callback (throw e) called = rw (round, called) tt
      by_callback (ok caller) called =
          rw (round, called) (passed-IsValid replay state n caller v sizes.1, smaller caller)

  every_round :
      (state : Replay S) → IsValid replay state → IsProgress state (replay_iteration replay state)
  every_round state v = by_answer (decode_frame (available replay state)) refl
    where
      by_answer :
          (answer : Outcome WalDecodeError (WalPutRecord × ℕ))
          → decode_frame (available replay state) ≡ answer
          → IsProgress state (replay_iteration replay state)
      by_answer (ok (r, n)) d = record_advances state r n v d
      by_answer (throw WalDecodeError.incomplete_record) d = elim (Bool-cases state.reached_end) [
        | inl last ↦ rw (iteration_end replay state v last d) tt
        | inr before ↦
            rw (iteration_more replay state v before d)
              (more-IsValid replay state v, more-measure replay state before)
      ]
      by_answer (throw WalDecodeError.none) d =
          error_stops state WalDecodeError.none d (λ h. cc (h))
      by_answer (throw WalDecodeError.invalid_magic) d =
          error_stops state WalDecodeError.invalid_magic d (λ h. cc (h))
      by_answer (throw WalDecodeError.unsupported_version) d =
          error_stops state WalDecodeError.unsupported_version d (λ h. cc (h))
      by_answer (throw WalDecodeError.unsupported_record_type) d =
          error_stops state WalDecodeError.unsupported_record_type d (λ h. cc (h))
      by_answer (throw WalDecodeError.invalid_length) d =
          error_stops state WalDecodeError.invalid_length d (λ h. cc (h))
      by_answer (throw WalDecodeError.checksum_mismatch) d =
          error_stops state WalDecodeError.checksum_mismatch d (λ h. cc (h))
      by_answer (throw WalDecodeError.invalid_payload) d =
          error_stops state WalDecodeError.invalid_payload d (λ h. cc (h))

  follow_ends :
      (fuel : ℕ) (state : Replay S)
      → ((next : Replay S)
          → IsValid replay next
          → measure replay next < fuel
          → replay_loop replay fuel next ≢ none)
      → (iteration : Outcome Exception (Iteration S)) → IsProgress state iteration
      → measure replay state < suc fuel
      → follow replay fuel iteration ≢ none
  follow_ends fuel state go (throw e) p m h = cc (h)
  follow_ends fuel state go (ok (returned result caller)) p m h = cc (h)
  follow_ends fuel state go (ok (continued next)) p m h = go next p.0 (omega (arith, p.1, m)) h

  loop_ends :
      (fuel : ℕ) (state : Replay S)
      → IsValid replay state
      → measure replay state < fuel
      → replay_loop replay fuel state ≢ none
  loop_ends zero state v m h = absurd (omega (arith, m))
  loop_ends (suc fuel) state v m h =
      follow_ends fuel state (λ next v' m'. loop_ends fuel next v' m')
        (replay_iteration replay state) (every_round state v) m
        (sym (loop-step replay fuel state) ∙ h)

-- The replay of any file, with any callback, ends: it returns or throws, and its fuel is enough.
pub replay_wal_ends :
    {S : Type 0} (replay : S → WalPutRecord → Outcome Exception S) (file : Bytes) (caller : S)
    → replay_wal replay file caller ≢ none
unfolding replay_wal
replay_wal_ends replay file caller =
    loop_ends replay (2 * length file + 2) (replay_start replay file caller)
      (record { consumed_within = omega arith; end_empties = λ h. cc (h); no_tail_yet = refl })
      (omega arith)
