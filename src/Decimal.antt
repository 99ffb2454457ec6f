-- ===== src/Decimal.antt =====
-- src/core.cpp: `parse_decimal` and `format_decimal`, prices and sizes at scale 10^8
-- (`decimal_scale` of include/bengal_market/model.hpp). The proofs are in the children.
pub mod Numeral
pub mod Digits
pub mod Split
pub mod Parse
pub mod Exact
pub mod Trim
pub mod Length
pub mod Format
mod Tests
use mathlib.Core.List.{reverse}
use bengal_market.Base.{
  Bool, Bytes, Option, [], drop, false, if◌then◌else◌, is_empty, is_some, length, ltb, none, not,
  replicate, some, suc, take, true, zero, ℕ, ◌%◌, ◌&&◌, ◌++◌, ◌-◌, ◌/◌, ◌==◌, ◌>>=◌, ◌^◌, ◌||◌, ◌∷◌,
}
use bengal_market.Base.Int.{is_negative, neg_ℤ, negsuc, to_int64, to_uint64, ℤ}
use bengal_market.Base.Words.{add_u64, mul_u64, sub_u64}
use bengal_market.Charconv.{parse_uint}
use bengal_market.Charconv.Print.{print_uint}

abbrev pub decimal_scale : ℕ
decimal_scale = 100_000_000

abbrev pub after : Option ℕ → Option ℕ
after none = none
after (some i) = some (suc i)

-- `value.find(c)`: the index of the first `c`, `none` for npos.
unfoldable pub find : ℕ → Bytes → Option ℕ
find c [] = none
find c (x ∷ s) = if x == c then some 0 else after (find c s)

-- The loop over `fraction_text`.
pub parse_fraction : Bytes → ℕ → Option ℕ
parse_fraction [] fraction = some fraction
parse_fraction (c ∷ s) fraction =
    if ltb c b'0' || ltb b'9' c
    then none
    else parse_fraction s (add_u64 (mul_u64 fraction 10) (c - b'0'))

-- `for (index = fraction_text.size(); index < 8; ++index)`, by the rounds left.
unfoldable pub pad_fraction : ℕ → ℕ → ℕ
pad_fraction zero fraction = fraction
pad_fraction (suc k) fraction = pad_fraction k (mul_u64 fraction 10)

-- The greatest magnitude that `int64_t` holds with this sign.
abbrev pub magnitude_limit : Bool → ℕ
magnitude_limit negative = if negative then 2 ^ 63 else 2 ^ 63 - 1

-- From `limit` on: the overflow tests and the signed result.
pub combine : Bool → ℕ → ℕ → Option ℤ
combine negative whole fraction =
    let limit = magnitude_limit negative in
    let scaled = mul_u64 whole decimal_scale in
    let magnitude = add_u64 scaled fraction in
    let signed_value = to_int64 magnitude in
    if ltb (limit / decimal_scale) whole
    then none
    else if ltb (sub_u64 limit scaled) fraction
    then none
    else if negative && (magnitude == limit)
    then some (negsuc (2 ^ 63 - 1))
    else some (if negative then neg_ℤ signed_value else signed_value)

-- The first test after the cut; `dotted` says that there is a dot.
abbrev pub malformed : Bytes → Bytes → Bool → Bool
malformed whole_text fraction_text dotted =
    is_empty whole_text
    || ltb 8 (length fraction_text)
    || (dotted && is_some (find b'.' fraction_text))

-- The two conversions, and what is made of them.
abbrev pub convert : Bool → Bytes → Bytes → Option ℤ
convert negative whole_text fraction_text = do
  whole ← parse_uint whole_text
  fraction ← parse_fraction fraction_text 0
  combine negative whole (pad_fraction (8 - length fraction_text) fraction)

pub parse_parts : Bool → Bytes → Bytes → Bool → Option ℤ
parse_parts negative whole_text fraction_text dotted =
    if malformed whole_text fraction_text dotted
    then none
    else convert negative whole_text fraction_text

-- `value.substr(0, dot)` and `value.substr(dot + 1)`.
pub split_at : Bool → Bytes → Option ℕ → Option ℤ
unfolding parse_parts
split_at negative value none = parse_parts negative value [] false
split_at negative value (some dot) =
    parse_parts negative (take dot value) (drop (suc dot) value) true

pub parse_unsigned : Bool → Bytes → Option ℤ
unfolding split_at find
parse_unsigned negative value =
    if is_empty value then none else split_at negative value (find b'.' value)

unfoldable pub parse_decimal : Bytes → Option ℤ
unfolding parse_unsigned combine pad_fraction parse_fraction parse_uint
parse_decimal [] = none
parse_decimal (c ∷ rest) =
    if (c == b'-') || (c == b'+')
    then parse_unsigned (c == b'-') rest
    else parse_unsigned false (c ∷ rest)

-- `while (result.back() == '0') result.pop_back();`, on the reversed text. The text holds a dot, so
-- the loop stops before the front.
pub pop_zeros : Bytes → Bytes
pop_zeros [] = []
pop_zeros (c ∷ s) = if c == b'0' then pop_zeros s else c ∷ s

pub strip_zeros : Bytes → Bytes
unfolding pop_zeros
strip_zeros result = reverse (pop_zeros (reverse result))

-- `std::setw(8) << std::setfill('0')`.
abbrev pub set_width : ℕ → Bytes → Bytes
set_width w s = replicate (w - length s) b'0' ++ s

abbrev pub sign_text : Bool → Bytes
sign_text true = b'-' ∷ []
sign_text false = []

pub format_parts : Bool → ℕ → Bytes
format_parts negative magnitude =
    let whole = magnitude / decimal_scale in
    let fraction = magnitude % decimal_scale in
    let output = sign_text negative ++ print_uint whole in
    if not (fraction == 0)
    then strip_zeros (output ++ b'.' ∷ set_width 8 (print_uint fraction))
    else output

unfoldable pub format_decimal : ℤ → Bytes
unfolding format_parts strip_zeros print_uint
format_decimal value =
    let negative = is_negative value in
    format_parts negative (if negative then sub_u64 0 (to_uint64 value) else to_uint64 value)
