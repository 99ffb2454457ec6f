-- ===== src/Decimal/Length.antt =====
-- src/core.cpp `format_decimal`: how long its texts are.
use bengal_market.Base.{
  Bool, Bytes, [], arith, false, if◌then◌else◌, length, length-append, length-replicate, not,
  replicate, true, ℕ, ◌%◌, ◌++◌, ◌-◌, ◌/◌, ◌<◌, ◌==◌, ◌^◌, ◌∷◌, ◌≤◌,
}
use bengal_market.Base.Int.{pos}
use bengal_market.Charconv.Print.{length-print_uint, print_uint}
use bengal_market.Decimal.{decimal_scale, format_decimal, format_parts, set_width, strip_zeros}
use bengal_market.Decimal.Trim.{length-strip_zeros}

pub length-format_decimal : (n : ℕ) → n < 2 ^ 63 → length (format_decimal (pos n)) ≤ 29
unfolding format_decimal format_parts print_uint
length-format_decimal n h = go (not (n % decimal_scale == 0))
  where
    whole_text : Bytes
    whole_text = print_uint (n / decimal_scale)

    short : length whole_text ≤ 20
    short = (length-print_uint 19 (n / decimal_scale) (omega (arith, h))).1

    fraction : Bytes
    fraction = print_uint (n % decimal_scale)

    eight : length fraction ≤ 8
    eight = (length-print_uint 7 (n % decimal_scale) (omega arith)).1

    go :
        (b : Bool)
        → length (
            if b
            then strip_zeros (([] ++ whole_text) ++ b'.' ∷ set_width 8 fraction)
            else [] ++ whole_text)
          ≤ 29
    go false = omega (arith, short)
    go true =
        let all = whole_text ++ b'.' ∷ set_width 8 fraction in
        let n = length-append whole_text (b'.' ∷ set_width 8 fraction) in
        let m = length-append (replicate (8 - length fraction) b'0') fraction in
        omega (
          arith,
          length-strip_zeros all,
          n,
          m,
          length-replicate {A = ℕ} (8 - length fraction) b'0',
          short,
          eight,
        )
