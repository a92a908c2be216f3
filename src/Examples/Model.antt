-- ===== src/Examples/Model.antt =====
-- The model, the byte codec and the series codec on concrete inputs.
use chronostore.Common.{
  ℕ, ◌≡◌, ◌≢◌, ◌<◌, ◌^◌, ◌⊎◌, refl, arith, [], ◌∷◌, ◌++◌, length, some, none, ◌+◌,
}
use mathlib.Core.List.{Permᴰ}
use chronostore.Order.{negsuc}
use chronostore.Order.Sort.{sort, insert_sorted}
use chronostore.Model.{IsSeries, make_series_key, has_duplicate_key}
use chronostore.Model.Canonical.{make_series_key-perm, make_series_key-IsSeries}
use chronostore.ByteCodec.{ByteReader, reader_of, read_unsigned, remaining, read_string}
use chronostore.ByteCodec.Layout.{string_bytes, u8}
use chronostore.ByteCodec.Read.{reader_at, read_unsigned_bounds}
use chronostore.ByteCodec.Strings.{read_string-string_bytes}
use chronostore.SeriesCodec.{timestamp_bits, timestamp_of_bits, read_series_key}
use chronostore.SeriesCodec.Layout.{series_bytes}
use chronostore.SeriesCodec.RoundTrip.{
  timestamp_of_bits_lem, read_series_key-series_bytes, end_of_tags,
}
use chronostore.Crc32c.{crc32c}
use chronostore.Crc32c.Detect.{crc32c_detects_byte}
use chronostore.Examples.{
  cpu_name, cpu, cpu-IsSeries, host, zone, host-IsTag, zone-IsTag, cpu_name-IsByte,
}

make_series_key-perm_example :
    make_series_key cpu_name (zone ∷ host ∷ []) ≡ make_series_key cpu_name (host ∷ zone ∷ [])
make_series_key-perm_example =
    make_series_key-perm cpu_name (zone ∷ host ∷ []) (host ∷ zone ∷ []) ∣ Permᴰ.swap refl refl ∣₁

make_series_key-IsSeries_example : IsSeries cpu
make_series_key-IsSeries_example =
    make_series_key-IsSeries cpu_name (zone ∷ host ∷ []) cpu cpu_name-IsByte
      (zone-IsTag, (host-IsTag, tt))
      (unfold make_series_key sort has_duplicate_key insert_sorted in refl)

timestamp_of_bits_example :
    (timestamp_bits (negsuc 4) < 2 ^ 64)
    × (timestamp_of_bits (timestamp_bits (negsuc 4)) ≡ negsuc 4)
timestamp_of_bits_example = timestamp_of_bits_lem (negsuc 4) (omega arith)

read_string_example :
    read_string (reader_at 2 (string_bytes cpu_name ++ (7 ∷ [])))
    ≡ some (cpu_name, reader_at (2 + 4 + length cpu_name) (7 ∷ []))
read_string_example = read_string-string_bytes cpu_name 2 (7 ∷ []) cpu_name-IsByte (omega arith)

read_unsigned_bounds_example :
    (read_unsigned (reader_of cpu_name) 2 ≡ none) × (remaining (reader_of cpu_name) < 2)
    ⊎ (v : ℕ) × (r : ByteReader) × (read_unsigned (reader_of cpu_name) 2 ≡ some (v, r))
      × (r.position ≡ 0 + 2)
      × (remaining r + 2 ≡ remaining (reader_of cpu_name))
read_unsigned_bounds_example = read_unsigned_bounds (reader_of cpu_name) 2 (omega arith)

read_series_key_example :
    read_series_key (reader_at 0 (series_bytes cpu ++ (1 ∷ [])))
    ≡ some (cpu, reader_at (end_of_tags (0 + 4 + length cpu.measurement + 4) cpu.tags) (1 ∷ []))
read_series_key_example =
    read_series_key-series_bytes cpu 0 (1 ∷ []) cpu-IsSeries
      (unfold series_bytes string_bytes u8 chronostore.ByteCodec.Layout.u32 in omega arith)

crc32c_detects_byte_example : crc32c ((1 ∷ []) ++ (2 ∷ 3 ∷ [])) ≢ crc32c ((1 ∷ []) ++ (4 ∷ 3 ∷ []))
crc32c_detects_byte_example =
    crc32c_detects_byte (1 ∷ []) (3 ∷ []) 2 4 (omega arith, tt) (omega arith, tt) (omega arith)
      (omega arith) (omega arith)
