-- ===== src/Json.antt =====
-- What `read_capture` of src/core.cpp uses of the third-party JSON library, as operations on its
-- values. A call that throws is `none`. A number is a `uint64_t`.
pub mod Value
pub mod Laws
pub mod Same
pub mod Table
use bengal_market.Base.{Bool, Bytes, List, Option, ℕ}

pub record JsonLib : Type 1 where
  pub Json : Type 0
  pub parse : Bytes → Option Json
  pub at : Json → Bytes → Option Json
  pub contains : Json → Bytes → Bool
  pub get_string : Json → Option Bytes
  pub get_u64 : Json → Option ℕ
  pub is_array : Json → Bool
  -- What a range-based `for` runs over.
  pub elements : Json → List Json
  pub equals_text : Json → Bytes → Bool
  pub equals_number : Json → ℕ → Bool
