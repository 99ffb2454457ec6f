-- ===== src/Decimal/Numeral.antt =====
-- The decimal numerals: their texts, and the amounts that they stand for at scale 10^8. This is an
-- independent description of what src/core.cpp `parse_decimal` reads.
use bengal_market.Base.{
  All, Bool, Bytes, IsDigit, Option, [], false, if◌then◌else◌, length, none, some, suc, true, zero,
  ℕ, ◌*◌, ◌++◌, ◌+◌, ◌-◌, ◌^◌, ◌∷◌, ◌≢◌, ◌≤◌,
}
use bengal_market.Base.Int.{pos, sub_ℕ, ℤ}
use bengal_market.Charconv.{decimal_value}
use bengal_market.Decimal.{decimal_scale}

pub data Sign : Type 0 where
  bare plus minus : Sign

-- `dot` holds the digits behind the dot, where there is one.
pub record Numeral : Type 0 where
  pub sign : Sign
  pub whole : Bytes
  pub dot : Option Bytes

abbrev pub spell_sign : Sign → Bytes
spell_sign bare = []
spell_sign plus = b'+' ∷ []
spell_sign minus = b'-' ∷ []

abbrev pub spell_dot : Option Bytes → Bytes
spell_dot none = []
spell_dot (some f) = b'.' ∷ f

abbrev pub spell : Numeral → Bytes
spell n = spell_sign n.sign ++ (n.whole ++ spell_dot n.dot)

abbrev pub digits_of : Option Bytes → Bytes
digits_of none = []
digits_of (some f) = f

-- One or more digits, and at most eight behind the dot.
pub record IsNumeral (n : Numeral) : Type 0 where
  pub has_whole : n.whole ≢ []
  pub whole_digits : All IsDigit n.whole
  pub dot_digits : All IsDigit (digits_of n.dot)
  pub precision : length (digits_of n.dot) ≤ 8

-- What digits behind the dot are worth, in units of 10^-k.
abbrev pub places : ℕ → Bytes → ℕ
places zero s = 0
places (suc k) [] = 0
places (suc k) (c ∷ s) = (c - b'0') * 10 ^ k + places k s

abbrev pub signed : Bool → ℕ → ℤ
signed negative m = if negative then sub_ℕ 0 m else pos m

abbrev pub is_minus : Sign → Bool
is_minus minus = true
is_minus _ = false

-- The exact value in units of 10^-8.
abbrev pub amount : Numeral → ℤ
amount n =
    signed (is_minus n.sign) (decimal_value 0 n.whole * decimal_scale + places 8 (digits_of n.dot))
