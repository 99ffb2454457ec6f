-- ===== src/Decimal/Tests.antt =====
-- The cases of tests/tests.cpp `decimal_tests`, and the properties at concrete inputs.
use mathlib.Core.List.{cons-ne-nil}
use bengal_market.Base.{[], arith, codes, none, refl, some, ◌-◌, ◌^◌, ◌≡◌}
use bengal_market.Base.Int.{negsuc, pos}
use bengal_market.Decimal.{format_decimal, parse_decimal}
use bengal_market.Decimal.Exact.{Denotes, parse_decimal_complete, parse_decimal_sound}
use bengal_market.Decimal.Format.{Prints, format_decimal-Prints, parse_decimal-format_decimal}
use bengal_market.Decimal.Numeral.{Numeral, amount, plus, spell}

decimal_tests :
    (parse_decimal (codes "0") ≡ some (pos 0))
    × (parse_decimal (codes "1.25") ≡ some (pos 125_000_000))
    × (parse_decimal (codes "-0.00000001") ≡ some (negsuc 0))
    × (parse_decimal (codes "1.000000001") ≡ none)
    × (parse_decimal (codes "1x") ≡ none)
    × (parse_decimal [] ≡ none)
    × (format_decimal (pos 125_000_000) ≡ codes "1.25")
    × (format_decimal (negsuc (2 ^ 63 - 1)) ≡ codes "-92233720368.54775808")
unfolding parse_decimal format_decimal
decimal_tests = (refl, refl, refl, refl, refl, refl, refl, refl)

dot_tests :
    (parse_decimal (codes "+1.") ≡ some (pos 100_000_000))
    × (parse_decimal (codes ".5") ≡ none)
    × (parse_decimal (codes "1.2.3") ≡ none)
    × (parse_decimal (codes "-92233720368.54775808") ≡ some (negsuc (2 ^ 63 - 1)))
    × (parse_decimal (codes "92233720368.54775808") ≡ none)
unfolding parse_decimal
dot_tests = (refl, refl, refl, refl, refl)

abbrev five_quarters : Numeral
five_quarters = record { sign = plus; whole = codes "1"; dot = some (codes "25") }

one_and_a_quarter : parse_decimal (codes "+1.25") ≡ some (pos 125_000_000)
unfolding parse_decimal
one_and_a_quarter = refl

parse_decimal_sound_example : (n : Numeral) × Denotes (codes "+1.25") (pos 125_000_000) n
parse_decimal_sound_example =
    parse_decimal_sound (codes "+1.25") (pos 125_000_000) one_and_a_quarter

parse_decimal_complete_example : parse_decimal (spell five_quarters) ≡ some (amount five_quarters)
parse_decimal_complete_example =
    parse_decimal_complete five_quarters
      (record {
        has_whole = cons-ne-nil b'1' [];
        whole_digits = omega arith;
        dot_digits = omega arith;
        precision = omega arith;
      })
      (omega arith)

format_decimal-Prints_example : Prints (negsuc 0) (format_decimal (negsuc 0))
format_decimal-Prints_example = format_decimal-Prints (negsuc 0) (omega arith)

parse_decimal-format_decimal_example :
    parse_decimal (format_decimal (negsuc (2 ^ 63 - 1))) ≡ some (negsuc (2 ^ 63 - 1))
parse_decimal-format_decimal_example =
    parse_decimal-format_decimal (negsuc (2 ^ 63 - 1)) (omega arith)
