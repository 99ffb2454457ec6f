-- ===== src/Timestamp/Stamp.antt =====
-- Timestamps: their texts, and the instants that they stand for. This is an independent
-- description of what src/core.cpp `parse_timestamp_ns` reads.
use bengal_market.Base.{
  All, Bytes, IsDigit, Option, [], length, none, some, ℕ, ◌%◌, ◌*◌, ◌++◌, ◌+◌, ◌/◌, ◌∷◌, ◌≢◌, ◌≤◌,
}
use bengal_market.Decimal.Numeral.{digits_of, places, spell_dot}
use bengal_market.Timestamp.Calendar.{days_since_epoch}
use bengal_market.Timestamp.Gregorian.{month_days}

pub record Stamp : Type 0 where
  pub year : ℕ
  pub month : ℕ
  pub day : ℕ
  pub hour : ℕ
  pub minute : ℕ
  pub second : ℕ
  pub dot : Option Bytes

abbrev pub two : ℕ → Bytes → Bytes
two n rest = (b'0' + n / 10) ∷ (b'0' + n % 10) ∷ rest

abbrev pub four : ℕ → Bytes → Bytes
four n rest = two (n / 100) (two (n % 100) rest)

-- YYYY-MM-DDThh:mm:ss, a dot and digits where there are any, and Z.
abbrev pub write_stamp : Stamp → Bytes
write_stamp t = four t.year (
    b'-'
    ∷ two t.month (
        b'-'
        ∷ two t.day (
            b'T'
            ∷ two t.hour
                (b':' ∷ two t.minute (b':' ∷ two t.second (spell_dot t.dot ++ b'Z' ∷ []))))))

abbrev pub IsFraction : Option Bytes → Type 0
IsFraction none = Unit
IsFraction (some f) = (f ≢ []) × All IsDigit f × (length f ≤ 9)

-- A date of the Gregorian calendar from 1970 to 9999, and a time of the day with no leap second.
pub record IsStamp (t : Stamp) : Type 0 where
  pub year_in : (1970 ≤ t.year) × (t.year ≤ 9999)
  pub month_in : (1 ≤ t.month) × (t.month ≤ 12)
  pub day_in : (1 ≤ t.day) × (t.day ≤ month_days t.year t.month)
  pub hour_in : t.hour ≤ 23
  pub minute_in : t.minute ≤ 59
  pub second_in : t.second ≤ 59
  pub fraction_in : IsFraction t.dot

-- The nanoseconds since 1970-01-01T00:00:00Z.
abbrev pub instant : Stamp → ℕ
instant t =
    (days_since_epoch t.year t.month t.day * 86_400 + t.hour * 3_600 + t.minute * 60 + t.second)
      * 1_000_000_000
    + places 9 (digits_of t.dot)
