-- ===== src/WalRecord/Prefix.antt =====
-- The decoder of src/wal_record.cpp on parts of a frame, and on a frame with bytes behind it.
use chronostore.Common.{
  ℕ, zero, suc, ◌+◌, ◌^◌, ◌<◌, ◌≤◌, ◌≡◌, ◌≢◌, inl, inr, refl, ap, sym, ◌∙◌, arith, [], ◌∷◌, ◌++◌,
  append-nil, length, length-append, length-drop, ◌%◌, take, drop, ok, throw, Outcome, some, ltb,
  ltb-false, ltb→le, Bool-cases, ◌!=◌, throw_if, demand, ◌>>=◌, ◌>>◌,
}
use chronostore.Errors.{WalDecodeError}
use chronostore.Model.{Bytes, IsSeries, IsSample}
use chronostore.ByteCodec.{reader_of, read_u32, decode_unsigned}
use chronostore.ByteCodec.Read.{read_u8_at, read_u32_at, decode_unsigned-append}
use chronostore.WalRecord.{
  WalPutRecord, Header, wal_magic, wal_version, record_type_put, max_payload_size, inverted,
  read_header, decode_frame, decode_payload, wal_header_size, wal_checksum_size,
}
use chronostore.Crc32c.{crc32c}
use chronostore.WalRecord.Layout.{payload_bytes, record_bytes, length-record_bytes}
use chronostore.WalRecord.RoundTrip.{decode_frame-record_bytes}
use chronostore.WalRecord.Frame.{decode_frame_size}

take-append_short : (n : ℕ) (xs ys : Bytes) → n ≤ length xs → take n (xs ++ ys) ≡ take n xs
take-append_short zero xs ys h = refl
take-append_short (suc n) [] ys h = absurd (omega arith)
take-append_short (suc n) (x ∷ xs) ys h = ap (λ t. x ∷ t) (take-append_short n xs ys (omega arith))

drop-append_short : (n : ℕ) (xs ys : Bytes) → n ≤ length xs → drop n (xs ++ ys) ≡ drop n xs ++ ys
drop-append_short zero xs ys h = refl
drop-append_short (suc n) [] ys h = absurd (omega arith)
drop-append_short (suc n) (x ∷ xs) ys h = drop-append_short n xs ys (omega arith)

-- The header of bytes that are long enough.
abbrev fields : Bytes → Header
fields bytes = record {
  magic = decode_unsigned 4 0 0 bytes % 2 ^ 32;
  version = decode_unsigned 1 0 0 (drop 4 bytes) % 2 ^ 8;
  record_type = decode_unsigned 1 0 0 (drop 1 (drop 4 bytes)) % 2 ^ 8;
  payload_length = decode_unsigned 4 0 0 (drop 1 (drop 1 (drop 4 bytes))) % 2 ^ 32;
  inverted_length = decode_unsigned 4 0 0 (drop 4 (drop 1 (drop 1 (drop 4 bytes)))) % 2 ^ 32;
}

module _ (bytes : Bytes) (h : 14 ≤ length bytes) where
  rest_4 : 10 ≤ length (drop 4 bytes)
  rest_4 = omega (arith, length-drop 4 bytes)

  rest_5 : 9 ≤ length (drop 1 (drop 4 bytes))
  rest_5 = omega (arith, length-drop 1 (drop 4 bytes), rest_4)

  rest_6 : 8 ≤ length (drop 1 (drop 1 (drop 4 bytes)))
  rest_6 = omega (arith, length-drop 1 (drop 1 (drop 4 bytes)), rest_5)

  rest_10 : 4 ≤ length (drop 4 (drop 1 (drop 1 (drop 4 bytes))))
  rest_10 = omega (arith, length-drop 4 (drop 1 (drop 1 (drop 4 bytes))), rest_6)

  read_header-fields : read_header (reader_of bytes) ≡ some (fields bytes)
  unfolding read_header
  read_header-fields =
      rw
        (
          read_u32_at 0 bytes (omega (arith, h)),
          read_u8_at 4 (drop 4 bytes) (omega (arith, rest_4)),
          read_u8_at 5 (drop 1 (drop 4 bytes)) (omega (arith, rest_5)),
          read_u32_at 6 (drop 1 (drop 1 (drop 4 bytes))) (omega (arith, rest_6)),
          read_u32_at 10 (drop 4 (drop 1 (drop 1 (drop 4 bytes)))) (omega (arith, rest_10)),
        )
        refl

module _ (bytes : Bytes) (h : 14 ≤ length bytes) where
  fields-append : (more : Bytes) → fields (bytes ++ more) ≡ fields bytes
  fields-append more =
      rw
        (
          drop-append_short 4 bytes more (omega (arith, h)),
          drop-append_short 1 (drop 4 bytes) more (omega (arith, rest_4 bytes h)),
          drop-append_short 1 (drop 1 (drop 4 bytes)) more (omega (arith, rest_5 bytes h)),
          drop-append_short 4 (drop 1 (drop 1 (drop 4 bytes))) more (omega (arith, rest_6 bytes h)),
          decode_unsigned-append 4 0 0 bytes more (omega (arith, h)),
          decode_unsigned-append 1 0 0 (drop 4 bytes) more (omega (arith, rest_4 bytes h)),
          decode_unsigned-append 1 0 0 (drop 1 (drop 4 bytes)) more (omega (arith, rest_5 bytes h)),
          decode_unsigned-append 4 0 0 (drop 1 (drop 1 (drop 4 bytes))) more
              (omega (arith, rest_6 bytes h)),
          decode_unsigned-append 4 0 0 (drop 4 (drop 1 (drop 1 (drop 4 bytes)))) more
              (omega (arith, rest_10 bytes h)),
        )
        refl

  read_header-append :
      (more : Bytes) → read_header (reader_of (bytes ++ more)) ≡ read_header (reader_of bytes)
  read_header-append more =
      read_header-fields (bytes ++ more) (omega (arith, length-append bytes more, h))
      ∙ ap some (fields-append more)
      ∙ sym (read_header-fields bytes h)

-- What `decode_frame` does after it has read the header.
after_header : Header → Bytes → Outcome WalDecodeError (WalPutRecord × ℕ)
after_header header bytes = do
  throw_if (header.magic != wal_magic) WalDecodeError.invalid_magic
  throw_if (header.inverted_length != inverted header.payload_length) WalDecodeError.invalid_length
  throw_if (ltb max_payload_size header.payload_length) WalDecodeError.invalid_length
  let protected_size = wal_header_size + header.payload_length
  let total_record_size = protected_size + wal_checksum_size
  throw_if (ltb (length bytes) total_record_size) WalDecodeError.incomplete_record
  let protected_bytes = take protected_size bytes
  let checksum_bytes = take wal_checksum_size (drop protected_size bytes)
  (stored_checksum, _) ←
      demand WalDecodeError.incomplete_record (read_u32 (reader_of checksum_bytes))
  throw_if (stored_checksum != crc32c protected_bytes) WalDecodeError.checksum_mismatch
  throw_if (header.version != wal_version) WalDecodeError.unsupported_version
  throw_if (header.record_type != record_type_put) WalDecodeError.unsupported_record_type
  let payload = take header.payload_length (drop wal_header_size bytes)
  decoded ← demand WalDecodeError.invalid_payload (decode_payload payload)
  ok (decoded, total_record_size)

decode_frame-after_header :
    (bytes : Bytes) (header : Header)
    → 14 ≤ length bytes
    → read_header (reader_of bytes) ≡ some header
    → decode_frame bytes ≡ after_header header bytes
unfolding decode_frame after_header
decode_frame-after_header bytes header h e = rw (ltb-false (length bytes) 14 h, e) refl

after_header-append :
    (header : Header) (bytes more : Bytes)
    → 14 ≤ length bytes
    → after_header header bytes ≢ throw WalDecodeError.incomplete_record
    → after_header header (bytes ++ more) ≡ after_header header bytes
unfolding after_header
after_header-append header bytes more h complete =
    let n = header.payload_length in
    let longer = length-append bytes more in
    elim (Bool-cases (ltb (length bytes) (14 + n + 4))) [
      | inl short ↦ ground (arith, longer)
      | inr enough ↦
          let fits = ltb→le (length bytes) (14 + n + 4) enough in
          rw
            (
              ltb-false (length (bytes ++ more)) (14 + n + 4) (omega (arith, longer)),
              enough,
              drop-append_short (14 + n) bytes more (omega arith),
              take-append_short 4 (drop (14 + n) bytes) more
                  (omega (arith, length-drop (14 + n) bytes)),
              take-append_short (14 + n) bytes more (omega arith),
              drop-append_short 14 bytes more h,
              take-append_short n (drop 14 bytes) more (omega (arith, length-drop 14 bytes)),
            )
            refl
    ]

-- Bytes behind an input change nothing in the answer, unless the record was incomplete without them.
pub decode_frame-append :
    (bytes more : Bytes)
    → decode_frame bytes ≢ throw WalDecodeError.incomplete_record
    → decode_frame (bytes ++ more) ≡ decode_frame bytes
decode_frame-append bytes more complete = elim (Bool-cases (ltb (length bytes) 14)) [
  | inl short ↦ absurd (complete (unfold decode_frame in rw short refl))
  | inr enough ↦
      let h = ltb→le (length bytes) 14 enough in
      let header = read_header-fields bytes h in
      let here = decode_frame-after_header bytes (fields bytes) h header in
      decode_frame-after_header (bytes ++ more) (fields bytes)
        (omega (arith, length-append bytes more)) (read_header-append bytes h more ∙ header)
      ∙ after_header-append (fields bytes) bytes more h (λ e. complete (here ∙ e))
      ∙ sym here
]

-- Every proper prefix of the frame of a canonical record is an incomplete record.
pub decode_frame_prefix :
    (r : WalPutRecord) (bytes more : Bytes)
    → IsSeries r.series
    → IsSample r.sample
    → length (payload_bytes r) ≤ max_payload_size
    → bytes ++ more ≡ record_bytes r
    → 0 < length more
    → decode_frame bytes ≡ throw WalDecodeError.incomplete_record
decode_frame_prefix r bytes more v s fits split rest = by_answer (decode_frame bytes) refl
  where
    whole : decode_frame (bytes ++ more) ≡ ok (r, 18 + length (payload_bytes r))
    whole = rw split (rw append-nil at (decode_frame-record_bytes r [] v s fits))

    size : length bytes + length more ≡ 18 + length (payload_bytes r)
    size = sym (length-append bytes more) ∙ ap length split ∙ length-record_bytes r

    clash :
        {error : WalDecodeError}
        → decode_frame bytes ≡ throw error
        → decode_frame bytes ≢ throw WalDecodeError.incomplete_record
        → decode_frame bytes ≡ throw WalDecodeError.incomplete_record
    clash e complete = cc (decode_frame-append bytes more complete, e, whole)

    by_answer :
        (answer : Outcome WalDecodeError (WalPutRecord × ℕ))
        → decode_frame bytes ≡ answer
        → decode_frame bytes ≡ throw WalDecodeError.incomplete_record
    by_answer (ok (found, n)) e =
        let same = decode_frame-append bytes more (λ h. cc (e, h)) in
        let sizes : n ≡ 18 + length (payload_bytes r) = cc (same, e, whole) in
        absurd (omega (arith, decode_frame_size bytes found n e, sizes, size, rest))
    by_answer (throw WalDecodeError.incomplete_record) e = e
    by_answer (throw WalDecodeError.none) e = clash e (λ h. cc (e, h))
    by_answer (throw WalDecodeError.invalid_magic) e = clash e (λ h. cc (e, h))
    by_answer (throw WalDecodeError.unsupported_version) e = clash e (λ h. cc (e, h))
    by_answer (throw WalDecodeError.unsupported_record_type) e = clash e (λ h. cc (e, h))
    by_answer (throw WalDecodeError.invalid_length) e = clash e (λ h. cc (e, h))
    by_answer (throw WalDecodeError.checksum_mismatch) e = clash e (λ h. cc (e, h))
    by_answer (throw WalDecodeError.invalid_payload) e = clash e (λ h. cc (e, h))

-- A prefix of an incomplete record is one too.
pub incomplete_prefix :
    (bytes more : Bytes)
    → decode_frame (bytes ++ more) ≡ throw WalDecodeError.incomplete_record
    → decode_frame bytes ≡ throw WalDecodeError.incomplete_record
incomplete_prefix bytes more h = by_answer (decode_frame bytes) refl
  where
    by_answer :
        (answer : Outcome WalDecodeError (WalPutRecord × ℕ))
        → decode_frame bytes ≡ answer
        → decode_frame bytes ≡ throw WalDecodeError.incomplete_record
    by_answer (throw WalDecodeError.incomplete_record) e = e
    by_answer (ok found) e = sym (decode_frame-append bytes more (λ k. cc (e, k))) ∙ h
    by_answer (throw WalDecodeError.none) e =
        sym (decode_frame-append bytes more (λ k. cc (e, k))) ∙ h
    by_answer (throw WalDecodeError.invalid_magic) e =
        sym (decode_frame-append bytes more (λ k. cc (e, k))) ∙ h
    by_answer (throw WalDecodeError.unsupported_version) e =
        sym (decode_frame-append bytes more (λ k. cc (e, k))) ∙ h
    by_answer (throw WalDecodeError.unsupported_record_type) e =
        sym (decode_frame-append bytes more (λ k. cc (e, k))) ∙ h
    by_answer (throw WalDecodeError.invalid_length) e =
        sym (decode_frame-append bytes more (λ k. cc (e, k))) ∙ h
    by_answer (throw WalDecodeError.checksum_mismatch) e =
        sym (decode_frame-append bytes more (λ k. cc (e, k))) ∙ h
    by_answer (throw WalDecodeError.invalid_payload) e =
        sym (decode_frame-append bytes more (λ k. cc (e, k))) ∙ h
