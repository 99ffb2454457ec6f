-- ===== src/Timestamp.antt =====
-- src/core.cpp: `parse_component`, `is_leap_year`, `days_in_month`, `days_from_civil` and
-- `parse_timestamp_ns`. The proofs are in the children.
pub mod Gregorian
pub mod Calendar
pub mod Stamp
pub mod Components
pub mod Assemble
pub mod Fraction
pub mod Exact
pub mod Sound
mod Tests
use bengal_market.Base.{
  Bool, Bytes, List, Option, [], drop, get_or, guard, if◌then◌else◌, leb, length, ltb, none, not,
  some, suc, zero, ℕ, ◌%◌, ◌&&◌, ◌+◌, ◌-◌, ◌/◌, ◌==◌, ◌>>=◌, ◌>>◌, ◌||◌, ◌∷◌,
}
use bengal_market.Base.Int.{
  is_negative, pos, scale_ℤ, to_uint32, to_uint64, trunc_div, ℤ, ◌+ℤ◌, ◌-ℤ◌,
}
use bengal_market.Base.Words.{add_u32, add_u64, max_u64, mul_u32, mul_u64, sub_u32}
use bengal_market.Decimal.{pad_fraction}

abbrev pub not_digit : ℕ → Bool
not_digit c = ltb c b'0' || ltb b'9' c

-- The loop of `parse_component`, by the rounds left. The guard keeps the index in range.
pub component_loop : Bytes → ℕ → ℕ → ℕ → Option ℕ
component_loop value index zero result = some result
component_loop value index (suc left) result =
    let character = get_or value index 0 in
    if not_digit character
    then none
    else component_loop value (index + 1) left (add_u32 (mul_u32 result 10) (character - b'0'))

pub parse_component : Bytes → ℕ → ℕ → Option ℕ
unfolding component_loop
parse_component value offset len =
    if ltb (length value) (offset + len) then none else component_loop value offset len 0

unfoldable pub is_leap_year : ℕ → Bool
is_leap_year year = (year % 4 == 0) && (not (year % 100 == 0) || (year % 400 == 0))

abbrev pub month_lengths : List ℕ
month_lengths = 31 ∷ 28 ∷ 31 ∷ 30 ∷ 31 ∷ 30 ∷ 31 ∷ 31 ∷ 30 ∷ 31 ∷ 30 ∷ 31 ∷ []

-- The table is read at month - 1, inside it for the months 1 to 12 that the caller lets through.
unfoldable pub days_in_month : ℕ → ℕ → ℕ
days_in_month year month =
    if (month == 2) && is_leap_year year then 29 else get_or month_lengths (month - 1) 0

-- The three local values of `days_from_civil`, of the year that begins in March.
pub era_of : ℤ → ℤ
era_of year = trunc_div (if is_negative year then year -ℤ pos 399 else year) 400

pub year_of_era : ℤ → ℕ
year_of_era year = to_uint32 (year -ℤ scale_ℤ (era_of year) 400)

pub day_of_year : ℕ → ℕ → ℕ
day_of_year month day =
    let shifted = if ltb 2 month then sub_u32 month 3 else add_u32 month 9 in
    sub_u32 (add_u32 (add_u32 (mul_u32 153 shifted) 2 / 5) day) 1

pub day_of_era : ℕ → ℕ → ℕ
day_of_era years days =
    add_u32 (sub_u32 (add_u32 (mul_u32 years 365) (years / 4)) (years / 100)) days

unfoldable pub days_from_civil : ℤ → ℕ → ℕ → ℤ
days_from_civil given month day =
    let year = if leb month 2 then given -ℤ pos 1 else given in
    scale_ℤ (era_of year) 146097
    +ℤ pos (day_of_era (year_of_era year) (day_of_year month day))
    -ℤ pos 719468

-- `value` is taken from `cursor` on: the characters not yet read. The result is the fraction, its
-- digits and what is left.
pub fraction_loop : Bytes → ℕ → ℕ → Option (ℕ × ℕ × Bytes)
fraction_loop [] fraction fraction_digits = some (fraction, fraction_digits, [])
fraction_loop (c ∷ s) fraction fraction_digits =
    let rest = fraction_loop s (add_u64 (mul_u64 fraction 10) (c - b'0')) (fraction_digits + 1) in
    if c == b'Z'
    then some (fraction, fraction_digits, c ∷ s)
    else if (fraction_digits == 9) || not_digit c
    then none
    else rest

-- `if (fraction_digits == 0) return std::nullopt;`
abbrev pub some_digits : ℕ × ℕ × Bytes → Option (ℕ × ℕ × Bytes)
some_digits (fraction, fraction_digits, rest) =
    if fraction_digits == 0 then none else some (fraction, fraction_digits, rest)

-- `if (value[cursor] == '.') { … }`
pub read_fraction : Bytes → Option (ℕ × ℕ × Bytes)
read_fraction [] = some (0, 0, [])
read_fraction (c ∷ s) =
    if c == b'.' then fraction_loop s 0 0 >>= some_digits else some (0, 0, c ∷ s)

-- `cursor + 1 != value.size() || value[cursor] != 'Z'`
abbrev pub ends_in_z : Bytes → Bool
ends_in_z s = (length s == 1) && (get_or s 0 0 == b'Z')

-- From `days` on.
pub assemble : ℤ → ℕ → ℕ → ℕ → ℕ → Option ℕ
assemble days hour minute second fraction =
    let seconds =
      add_u64
        (add_u64 (add_u64 (mul_u64 (to_uint64 days) 86_400) (mul_u64 hour 3_600))
          (mul_u64 minute 60))
        second in
    if is_negative days
    then none
    else if ltb ((max_u64 - fraction) / 1_000_000_000) seconds
    then none
    else some (add_u64 (mul_u64 seconds 1_000_000_000) fraction)

abbrev pub well_shaped : Bytes → Bool
well_shaped value = not (
    ltb (length value) 20
    || not (get_or value 4 0 == b'-')
    || not (get_or value 7 0 == b'-')
    || not (get_or value 10 0 == b'T')
    || not (get_or value 13 0 == b':')
    || not (get_or value 16 0 == b':'))

abbrev pub fields_fit : ℕ → ℕ → ℕ → ℕ → ℕ → ℕ → Bool
fields_fit year month day hour minute second = not (
    ltb year 1970
    || ltb month 1
    || ltb 12 month
    || ltb day 1
    || ltb (days_in_month year month) day
    || ltb 23 hour
    || ltb 59 minute
    || ltb 59 second)

-- The code reads all six components before it tests them; reading has no effect.
unfoldable pub parse_timestamp_ns : Bytes → Option ℕ
parse_timestamp_ns value = do
  guard (well_shaped value)
  year ← parse_component value 0 4
  month ← parse_component value 5 2
  day ← parse_component value 8 2
  hour ← parse_component value 11 2
  minute ← parse_component value 14 2
  second ← parse_component value 17 2
  guard (fields_fit year month day hour minute second)
  scanned ← read_fraction (drop 19 value)
  guard (ends_in_z scanned.2)
  assemble (days_from_civil (pos year) month day) hour minute second
      (pad_fraction (9 - scanned.1) scanned.0)

-- For the modules that compute with `parse_timestamp_ns`.
unfoldable pub timestamp_code : Unit {0}
unfolding parse_timestamp_ns parse_component days_in_month is_leap_year days_from_civil era_of
    year_of_era day_of_year day_of_era fraction_loop read_fraction pad_fraction assemble
timestamp_code = tt
