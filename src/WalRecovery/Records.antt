-- ===== src/WalRecovery/Records.antt =====
-- The loop of the replay over the frames of written records.
use chronostore.Common.{
  ℕ, zero, suc, ◌+◌, ◌%◌, ◌^◌, ◌<◌, ◌≤◌, ◌≡◌, inl, inr, refl, ap, sym, ◌∙◌, arith, false, Option,
  some, List, [], ◌∷◌, ◌++◌, append-nil, append_assoc, length, length-append, length-drop, drop,
  All, ltb, ltb→lt, ltb→le, Bool-cases, Outcome, ok, throw, ◌>>=◌,
}
use native.Mathlib.Nat.{mod-eq_of_lt}
use chronostore.Errors.{Exception}
use chronostore.Model.{Bytes, IsSeries, IsSample}
use chronostore.WalRecord.{WalPutRecord, decode_frame, max_payload_size}
use chronostore.WalRecord.Layout.{record_bytes, payload_bytes, length-record_bytes}
use chronostore.WalRecord.RoundTrip.{decode_frame-record_bytes}
use chronostore.WalRecord.Prefix.{decode_frame_prefix, incomplete_prefix}
use chronostore.WalRecovery.{
  WalReplayResult, Replay, Iteration, returned, continued, replay_iteration, replay_loop,
}
use chronostore.WalRecovery.Slices.{omega_suc, append_split}
use chronostore.WalRecovery.Round.{
  IsIncomplete, available, measure, IsValid, more, more-IsValid, more-stream, more-measure,
  iteration_more, iteration_end, passed, iteration_record, available-passed, passed-IsValid,
}

-- What the writer appends: records with canonical keys, valid samples and payloads within the limit.
pub record IsWritten (r : WalPutRecord) : Type 0 where
  pub series_canonical : IsSeries r.series
  pub sample_valid : IsSample r.sample
  pub payload_fits : length (payload_bytes r) ≤ max_payload_size

abbrev pub frames : List WalPutRecord → Bytes
frames [] = []
frames (r ∷ records) = record_bytes r ++ frames records

module _ {S : Type 0} (replay : S → WalPutRecord → Outcome Exception S) where
  -- The callback on each record in turn.
  abbrev pub replay_all : S → List WalPutRecord → Outcome Exception S
  replay_all caller [] = ok caller
  replay_all caller (r ∷ records) = replay caller r >>= λ caller. replay_all caller records

  -- What the replay answers: the records that are still in the stream, on top of those replayed.
  abbrev pub outcome :
      Replay S → List WalPutRecord → Bytes → Outcome Exception (WalReplayResult × S)
  outcome state records tail = replay_all state.caller records >>= λ caller. ok (
    record {
      records_replayed = state.result.records_replayed + length records;
      valid_bytes = state.result.valid_bytes + length (frames records);
      incomplete_tail_bytes = length tail;
    },
    caller,
  )

  pub record Fits (result : WalReplayResult) (records : List WalPutRecord) : Type 0 where
    pub bytes_fit : result.valid_bytes + length (frames records) < 2 ^ 64
    pub records_fit : result.records_replayed + length records < 2 ^ 64

  outcome-end :
      (state : Replay S) (tail : Bytes)
      → available replay state ≡ tail
      → some (
          ok (
            record {
              records_replayed = state.result.records_replayed;
              valid_bytes = state.result.valid_bytes;
              incomplete_tail_bytes = length (available replay state);
            },
            state.caller,
          ))
        ≡ some (outcome state [] tail)
  outcome-end state tail e =
      let no_records : state.result.records_replayed ≡ state.result.records_replayed + 0 =
        omega arith in
      let no_bytes : state.result.valid_bytes ≡ state.result.valid_bytes + 0 = omega arith in
      cc (ap length e, no_records, no_bytes)

  outcome-passed :
      (state : Replay S) (r : WalPutRecord) (records : List WalPutRecord) (tail : Bytes)
      (caller : S)
      → replay state.caller r ≡ ok caller
      → Fits state.result (r ∷ records)
      → outcome (passed replay state (length (record_bytes r)) caller) records tail
        ≡ outcome state (r ∷ records) tail
  outcome-passed state r records tail caller called fits =
      let bytes = length-append (record_bytes r) (frames records) in
      let longer = length-record_bytes r in
      let one =
        mod-eq_of_lt (omega_suc state.result.records_replayed (length records) fits.records_fit) in
      let sum : state.result.valid_bytes + length (record_bytes r) < 2 ^ 64 =
        omega (arith, fits.bytes_fit, bytes) in
      let more_bytes = mod-eq_of_lt sum in
      let count : suc state.result.records_replayed % 2 ^ 64 + length records
          ≡ state.result.records_replayed + suc (length records) =
        omega (arith, one) in
      let size : (state.result.valid_bytes + length (record_bytes r)) % 2 ^ 64
            + length (frames records)
          ≡ state.result.valid_bytes + length (frames (r ∷ records)) =
        omega (arith, more_bytes, bytes) in
      rw (called, count, size) refl

  passed-Fits :
      (state : Replay S) (r : WalPutRecord) (records : List WalPutRecord) (caller : S)
      → Fits state.result (r ∷ records)
      → Fits (passed replay state (length (record_bytes r)) caller).result records
  passed-Fits state r records caller fits =
      let bytes = length-append (record_bytes r) (frames records) in
      let one =
        mod-eq_of_lt (omega_suc state.result.records_replayed (length records) fits.records_fit) in
      let sum : state.result.valid_bytes + length (record_bytes r) < 2 ^ 64 =
        omega (arith, fits.bytes_fit, bytes) in
      let more_bytes = mod-eq_of_lt sum in
      record {
        bytes_fit = omega (arith, more_bytes, bytes, fits.bytes_fit);
        records_fit = omega (arith, one, fits.records_fit);
      }

  -- What the loop does with an iteration.
  abbrev pub follow :
      ℕ → Outcome Exception (Iteration S) → Option (Outcome Exception (WalReplayResult × S))
  follow fuel (throw e) = some (throw e)
  follow fuel (ok (returned result caller)) = some (ok (result, caller))
  follow fuel (ok (continued next)) = replay_loop replay fuel next

  pub loop-step :
      (fuel : ℕ) (state : Replay S)
      → replay_loop replay (suc fuel) state ≡ follow fuel (replay_iteration replay state)
  unfolding replay_loop
  loop-step fuel state = ground arith

  pub loop-record :
      (fuel : ℕ) (state : Replay S) (r : WalPutRecord) (n : ℕ)
      (answer : Option (Outcome Exception (WalReplayResult × S)))
      → replay_iteration replay state
        ≡ (replay state.caller r >>= λ caller. ok (continued (passed replay state n caller)))
      → ((caller : S)
          → replay state.caller r ≡ ok caller
          → replay_loop replay fuel (passed replay state n caller) ≡ answer)
      → ((e : Exception) → replay state.caller r ≡ throw e → some (throw e) ≡ answer)
      → replay_loop replay (suc fuel) state ≡ answer
  loop-record fuel state r n answer step go stop = by_callback (replay state.caller r) refl
    where
      by_callback :
          (o : Outcome Exception S)
          → replay state.caller r ≡ o
          → replay_loop replay (suc fuel) state ≡ answer
      by_callback (ok caller) e = loop-step fuel state ∙ ap (follow fuel) step ∙ rw e (go caller e)
      by_callback (throw x) e = loop-step fuel state ∙ ap (follow fuel) step ∙ rw e (stop x e)

  pub loop-more :
      (fuel : ℕ) (state next : Replay S)
      → replay_iteration replay state ≡ ok (continued next)
      → replay_loop replay (suc fuel) state ≡ replay_loop replay fuel next
  loop-more fuel state next step = loop-step fuel state ∙ ap (follow fuel) step

  pub loop-end :
      (fuel : ℕ) (state : Replay S) (result : WalReplayResult) (caller : S)
      → replay_iteration replay state ≡ ok (returned result caller)
      → replay_loop replay (suc fuel) state ≡ some (ok (result, caller))
  loop-end fuel state result caller step = loop-step fuel state ∙ ap (follow fuel) step

  not_ended :
      (state : Replay S)
      → IsValid replay state
      → (us vs : Bytes) → us ++ vs ≡ state.input
      → 0 < length us
      → state.reached_end ≡ false
  not_ended state v us vs e h = elim (Bool-cases state.reached_end) [
    | inl last ↦
        let nothing : us ++ vs ≡ [] = e ∙ v.end_empties last in
        absurd (omega (arith, h, length-append us vs, ap length nothing))
    | inr before ↦ before
  ]

  -- With fuel for its measure the loop gives the outcome of the stream.
  pub written_loop :
      (fuel : ℕ) (state : Replay S) (records : List WalPutRecord) (tail : Bytes)
      → IsValid replay state
      → available replay state ++ state.input ≡ frames records ++ tail
      → All IsWritten records
      → IsIncomplete tail
      → Fits state.result records
      → measure replay state < fuel
      → replay_loop replay fuel state ≡ some (outcome state records tail)
  written_loop zero state records tail v e w i f m = absurd (omega arith)
  written_loop (suc fuel) state [] tail v e w i f m =
      let incomplete = incomplete_prefix (available replay state) state.input (rw e i) in
      elim (Bool-cases state.reached_end) [
        | inl last ↦
            let all : available replay state ≡ tail =
              sym (append-nil (available replay state))
              ∙ ap (λ t. available replay state ++ t) (sym (v.end_empties last))
              ∙ e in
            loop-end fuel state _ state.caller (iteration_end replay state v last incomplete)
            ∙ outcome-end state tail all
        | inr before ↦
            loop-more fuel state (more replay state)
              (iteration_more replay state v before incomplete)
            ∙ written_loop fuel (more replay state) [] tail (more-IsValid replay state v)
                (more-stream replay state ∙ e) w i f
                (omega (arith, more-measure replay state before))
      ]
  written_loop (suc fuel) state (r ∷ records) tail v e w i f m =
      elim (Bool-cases (ltb (length (available replay state)) (length (record_bytes r)))) [
        | inl short ↦
            let shorter =
              ltb→lt (length (available replay state)) (length (record_bytes r)) short in
            let (split, behind) =
              append_split (available replay state) state.input (record_bytes r)
                (frames records ++ tail)
                (sym (append_assoc (record_bytes r) (frames records) tail) ∙ sym e) (omega arith) in
            let left = length-drop (length (available replay state)) (record_bytes r) in
            let incomplete =
              decode_frame_prefix r (available replay state)
                (drop (length (available replay state)) (record_bytes r)) w.0.series_canonical
                w.0.sample_valid w.0.payload_fits (sym split) (omega (arith, left)) in
            let before =
              not_ended state v (drop (length (available replay state)) (record_bytes r))
                (frames records ++ tail) behind (omega (arith, left)) in
            loop-more fuel state (more replay state)
              (iteration_more replay state v before incomplete)
            ∙ written_loop fuel (more replay state) (r ∷ records) tail (more-IsValid replay state v)
                (more-stream replay state ∙ e) w i f
                (omega (arith, more-measure replay state before))
        | inr enough ↦
            let n = length (record_bytes r) in
            let longer = ltb→le (length (available replay state)) n enough in
            let (split, behind) =
              append_split (record_bytes r) (frames records ++ tail) (available replay state)
                state.input (e ∙ append_assoc (record_bytes r) (frames records) tail) longer in
            let left = length-drop n (available replay state) in
            let size = length-record_bytes r in
            let decoded : decode_frame (available replay state) ≡ ok (r, n) = rw split (
              decode_frame-record_bytes r (drop n (available replay state)) w.0.series_canonical
                w.0.sample_valid w.0.payload_fits
              ∙ ap (λ (k : ℕ). ok (r, k)) (sym size)) in
            loop-record fuel state r n (some (outcome state (r ∷ records) tail))
              (iteration_record replay state r n (omega (arith, size)) longer decoded)
              (λ caller called.
                let there = available-passed replay state n caller in
                written_loop fuel (passed replay state n caller) records tail
                  (passed-IsValid replay state n caller v longer) (rw there behind) w.1 i
                  (passed-Fits state r records caller f)
                  (omega (arith, ap length there, left, size, m, longer))
                ∙ ap some (outcome-passed state r records tail caller called f))
              (λ x thrown. rw thrown refl)
      ]
