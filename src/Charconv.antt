-- ===== src/Charconv.antt =====
-- What the program uses of the C++ library's number conversions: `std::from_chars` into a
-- `uint64_t`, and the decimal print of an unsigned integer.
pub mod Print
pub mod Laws
use bengal_market.Base.{
  Bool, Bytes, Option, [], false, if◌then◌else◌, leb, length, ltb, none, some, true, ℕ, ◌&&◌, ◌*◌,
  ◌+◌, ◌-◌, ◌==◌, ◌∷◌,
}
use bengal_market.Base.Words.{max_u64}

-- `std::errc` as the program tests it.
pub data Errc : Type 0 where
  ok invalid_argument result_out_of_range : Errc

-- `ptr` is the number of characters consumed; `value` is what the variable, 0 before, holds after.
pub record FromChars : Type 0 where
  pub ec : Errc
  pub ptr : ℕ
  pub value : ℕ

abbrev pub is_digit : ℕ → Bool
is_digit c = leb b'0' c && leb c b'9'

-- The digits at the front of a text.
pub digit_run : Bytes → Bytes
digit_run [] = []
digit_run (c ∷ s) = if is_digit c then c ∷ digit_run s else []

-- The number that digits spell behind `n`.
abbrev pub decimal_value : ℕ → Bytes → ℕ
decimal_value n [] = n
decimal_value n (c ∷ s) = decimal_value (n * 10 + (c - b'0')) s

unfoldable pub from_chars : Bytes → FromChars
unfolding digit_run
from_chars s =
    let run = digit_run s in
    if length run == 0
    then record { ec = invalid_argument; ptr = 0; value = 0 }
    else if ltb max_u64 (decimal_value 0 run)
    then record { ec = result_out_of_range; ptr = length run; value = 0 }
    else record { ec = ok; ptr = length run; value = decimal_value 0 run }

abbrev pub is_ok : Errc → Bool
is_ok ok = true
is_ok _ = false

-- The number, where the conversion succeeds and takes the whole text.
unfoldable pub parse_uint : Bytes → Option ℕ
unfolding from_chars
parse_uint s =
    let r = from_chars s in if is_ok r.ec && (r.ptr == length s) then some r.value else none
