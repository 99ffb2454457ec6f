-- ===== src/Timestamp/Tests.antt =====
-- Timestamps of tests/tests.cpp `validity_tests` and some more, and the properties at concrete
-- inputs.
use mathlib.Core.List.{cons-ne-nil}
use bengal_market.Base.{[], arith, codes, if◌then◌else◌, leb, none, refl, some, ◌-◌, ◌^◌, ◌≡◌, ◌≤◌}
use bengal_market.Base.Int.{pos}
use bengal_market.Base.Words.{max_u64}
use bengal_market.Timestamp.{days_from_civil, parse_timestamp_ns, timestamp_code}
use bengal_market.Timestamp.Calendar.{days_from_civil-days_since_epoch, days_since_epoch}
use bengal_market.Timestamp.Exact.{parse_timestamp_ns_complete}
use bengal_market.Timestamp.Sound.{parse_timestamp_ns_sound}
use bengal_market.Timestamp.Stamp.{IsStamp, Stamp, instant, write_stamp}

runs :
    (parse_timestamp_ns (codes "2026-01-01T00:00:00.000000001Z") ≡ some 1_767_225_600_000_000_001)
    × (parse_timestamp_ns (codes "1970-01-01T00:00:00Z") ≡ some 0)
    × (parse_timestamp_ns (codes "2026-02-30T00:00:00Z") ≡ none)
    × (parse_timestamp_ns (codes "2024-02-29T23:59:59.5Z") ≡ some 1_709_251_199_500_000_000)
    × (parse_timestamp_ns (codes "2026-01-01T00:00:00.Z") ≡ none)
    × (parse_timestamp_ns (codes "2554-07-21T23:34:33.709551615Z") ≡ some (2 ^ 64 - 1))
    × (parse_timestamp_ns (codes "2554-07-21T23:34:33.709551616Z") ≡ none)
unfolding timestamp_code
runs = (refl, refl, refl, refl, refl, refl, refl)

abbrev leap_second_before : Stamp
leap_second_before = record {
  year = 2024;
  month = 2;
  day = 29;
  hour = 23;
  minute = 59;
  second = 59;
  dot = some (codes "5");
}

leap_second_before-IsStamp : IsStamp leap_second_before
unfolding timestamp_code
leap_second_before-IsStamp = record {
  year_in = omega arith;
  month_in = omega arith;
  day_in = omega arith;
  hour_in = omega arith;
  minute_in = omega arith;
  second_in = omega arith;
  fraction_in = (cons-ne-nil b'5' [], omega arith, omega arith);
}

half_past : parse_timestamp_ns (codes "2024-02-29T23:59:59.5Z") ≡ some 1_709_251_199_500_000_000
unfolding timestamp_code
half_past = refl

days_from_civil-days_since_epoch_example :
    days_from_civil (pos 2024) 2 29 ≡ pos (days_since_epoch 2024 2 29)
days_from_civil-days_since_epoch_example =
    days_from_civil-days_since_epoch 2024 2 29 (omega arith) (omega arith) (omega arith)
      (omega arith) (omega arith) (omega arith)

parse_timestamp_ns_complete_example :
    parse_timestamp_ns (write_stamp leap_second_before)
    ≡ (if leb (instant leap_second_before) max_u64 then some (instant leap_second_before) else none)
parse_timestamp_ns_complete_example =
    parse_timestamp_ns_complete leap_second_before leap_second_before-IsStamp

parse_timestamp_ns_sound_example :
    (t : Stamp) × IsStamp t
    × (write_stamp t ≡ codes "2024-02-29T23:59:59.5Z")
    × (1_709_251_199_500_000_000 ≡ instant t)
    × (1_709_251_199_500_000_000 ≤ max_u64)
parse_timestamp_ns_sound_example =
    parse_timestamp_ns_sound (codes "2024-02-29T23:59:59.5Z") 1_709_251_199_500_000_000 half_past
