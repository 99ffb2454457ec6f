-- ===== src/Timestamp/Exact.antt =====
-- src/core.cpp `parse_timestamp_ns` reads exactly the timestamps from 1970 on whose instant is a
-- `uint64_t`, and returns that instant.
use native.Mathlib.Nat.{le_trans}
use bengal_market.Base.{
  Bytes, Option, [], ap, arith, if◌then◌else◌, leb, length-append, none, refl, some, true, ℕ, ◌*◌,
  ◌+◌, ◌-◌, ◌<◌, ◌∙◌, ◌∷◌, ◌≡◌,
}
use bengal_market.Base.Int.{pos}
use bengal_market.Base.Words.{max_u64}
use bengal_market.Decimal.{pad_fraction}
use bengal_market.Decimal.Digits.{places-lt}
use bengal_market.Decimal.Numeral.{digits_of, places, spell_dot}
use bengal_market.Timestamp.{
  assemble, days_from_civil, ends_in_z, fields_fit, parse_timestamp_ns, well_shaped,
}
use bengal_market.Timestamp.Assemble.{assemble_lem}
use bengal_market.Timestamp.Calendar.{
  days_from_civil-days_since_epoch, days_since_epoch, days_since_epoch-lt,
}
use bengal_market.Timestamp.Components.{component_four, component_two, pair_complete, quad_complete}
use bengal_market.Timestamp.Fraction.{read_fraction_complete}
use bengal_market.Timestamp.Gregorian.{days_in_month-month_days, month_days-le}
use bengal_market.Timestamp.Stamp.{IsFraction, IsStamp, Stamp, instant, write_stamp}

-- The last step on fields that were accepted.
pub finish_lem :
    (t : Stamp) (fraction : ℕ)
    → IsStamp t
    → fraction ≡ places 9 (digits_of t.dot)
    → fraction < 1_000_000_000
    → assemble (days_from_civil (pos t.year) t.month t.day) t.hour t.minute t.second fraction
      ≡ (if leb (instant t) max_u64 then some (instant t) else none)
finish_lem t fraction v e small =
    let d31 = le_trans v.day_in.1 (month_days-le t.year t.month v.month_in.0 v.month_in.1) in
    ap (λ d. assemble d t.hour t.minute t.second fraction)
      (days_from_civil-days_since_epoch t.year t.month t.day v.year_in.0 v.year_in.1 v.month_in.0
        v.month_in.1 v.day_in.0 d31)
    ∙ assemble_lem (days_since_epoch t.year t.month t.day) t.hour t.minute t.second fraction
        (days_since_epoch-lt t.year t.month t.day v.year_in.0 v.year_in.1 v.month_in.0 v.month_in.1
          d31)
        v.hour_in v.minute_in v.second_in small
    ∙ ap
        (λ f.
          let n =
            (days_since_epoch t.year t.month t.day * 86_400
                + t.hour * 3_600
                + t.minute * 60
                + t.second)
              * 1_000_000_000
            + f in
          if leb n max_u64 then some n else none)
        e

pub fraction_lt : (d : Option Bytes) → IsFraction d → places 9 (digits_of d) < 1_000_000_000
fraction_lt none h = omega arith
fraction_lt (some f) h = places-lt 9 f h.1

-- Every timestamp of a date and time that exist, from 1970 on, with at most nine digits of a
-- fraction, is accepted and gives its instant where that is below 2^64, and is refused otherwise.
pub parse_timestamp_ns_complete :
    (t : Stamp)
    → IsStamp t
    → parse_timestamp_ns (write_stamp t)
      ≡ (if leb (instant t) max_u64 then some (instant t) else none)
unfolding parse_timestamp_ns
parse_timestamp_ns_complete t v =
    let s = write_stamp t in
    let tail = length-append (spell_dot t.dot) (b'Z' ∷ []) in
    let shaped : well_shaped s ≡ true = ground (arith, tail) in
    let year =
      component_four s 0 (omega arith) ∙ quad_complete t.year (omega (arith, v.year_in.1)) in
    let month =
      component_two s 5 (omega arith) ∙ pair_complete t.month (omega (arith, v.month_in.1)) in
    let day =
      component_two s 8 (omega arith)
      ∙ pair_complete t.day
          (omega (arith, v.day_in.1, month_days-le t.year t.month v.month_in.0 v.month_in.1)) in
    let hour = component_two s 11 (omega arith) ∙ pair_complete t.hour (omega (arith, v.hour_in)) in
    let minute =
      component_two s 14 (omega arith) ∙ pair_complete t.minute (omega (arith, v.minute_in)) in
    let second =
      component_two s 17 (omega arith) ∙ pair_complete t.second (omega (arith, v.second_in)) in
    let fit : fields_fit t.year t.month t.day t.hour t.minute t.second ≡ true =
      ground (arith, v, days_in_month-month_days t.year t.month v.month_in.0 v.month_in.1) in
    let (r, scanned, rest, padded) = read_fraction_complete t.dot v.fraction_in in
    let z : ends_in_z r.2 ≡ true = rw rest refl in
    rw (shaped, year, month, day, hour, minute, second, fit, scanned, z)
      (finish_lem t (pad_fraction (9 - r.1) r.0) v padded
        (rw padded (fraction_lt t.dot v.fraction_in)))
