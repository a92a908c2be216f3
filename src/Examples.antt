-- ===== src/Examples.antt =====
-- Test data: a series, samples, records and tables, which the children use as concrete inputs.
pub mod Model
pub mod MemTable
pub mod Wal
pub mod Engine
pub mod Segment
pub mod Storage
pub mod System
pub mod Recovery
use chronostore.Common.{ℕ, ◌≡◌, refl, arith, List, [], ◌∷◌, All, length}
use chronostore.Order.{pos, negsuc}
use chronostore.Model.{
  Bytes, Tag, SeriesKey, Timestamp, Sample, IsByte, IsTag, IsSeries, IsSample, is_finite,
}

-- "cpu"
abbrev pub cpu_name : Bytes
cpu_name = 99 ∷ 112 ∷ 117 ∷ []

-- host=a
abbrev pub host : Tag
host = record { key = 104 ∷ 111 ∷ []; value = 97 ∷ [] }

-- zone=b
abbrev pub zone : Tag
zone = record { key = 122 ∷ []; value = 98 ∷ [] }

abbrev pub cpu : SeriesKey
cpu = record { measurement = cpu_name; tags = host ∷ zone ∷ [] }

-- 1.0 and 2.0
abbrev pub sample_one : Sample
sample_one = record { timestamp = pos 10; value = 0x3FF0000000000000 }

abbrev pub sample_two : Sample
sample_two = record { timestamp = pos 20; value = 0x4000000000000000 }

pub host-IsTag : IsTag host
host-IsTag = record {
  key_bytes = (omega arith, (omega arith, tt));
  value_bytes = (omega arith, tt);
  key_nonempty = refl;
}

pub zone-IsTag : IsTag zone
zone-IsTag = record {
  key_bytes = (omega arith, tt);
  value_bytes = (omega arith, tt);
  key_nonempty = refl;
}

pub cpu_name-IsByte : All IsByte cpu_name
cpu_name-IsByte = (omega arith, (omega arith, (omega arith, tt)))

pub cpu-IsSeries : IsSeries cpu
cpu-IsSeries = record {
  measurement_bytes = cpu_name-IsByte;
  measurement_nonempty = refl;
  tags_valid = (host-IsTag, (zone-IsTag, tt));
  keys_increase = (refl, tt);
}

pub sample_one-IsSample : IsSample sample_one
sample_one-IsSample = record {
  timestamp_fits = omega arith;
  value_fits = omega arith;
  value_finite = unfold is_finite in refl;
}
