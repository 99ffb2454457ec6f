-- ===== src/Model.antt =====
-- include/bengal_market/model.hpp: the texts of fixed capacity, and a trade.
pub mod Text
mod Tests
use bengal_market.Base.{
  Bool, Bytes, List, [], false, if◌then◌else◌, length, ltb, replicate, set, take, true, ℕ, ◌+◌, ◌∷◌,
}
use bengal_market.Base.Int.{ℤ}

abbrev pub queue_capacity : ℕ
queue_capacity = 4096

-- `bounded_text<Capacity>`: the array, of `Capacity` characters, and how many are in use.
pub record BoundedText : Type 0 where
  pub chars : List ℕ
  pub size : ℕ

abbrev pub blank : ℕ → BoundedText
blank capacity = record { chars = replicate capacity 0; size = 0 }

-- The loop of `assign`, from `index` on.
pub copy_from : List ℕ → Bytes → ℕ → List ℕ
copy_from chars [] index = chars
copy_from chars (c ∷ s) index = copy_from (set chars index c) s (index + 1)

unfoldable pub assign : ℕ → BoundedText → Bytes → Bool × BoundedText
unfolding copy_from
assign capacity t value =
    if ltb capacity (length value)
    then (false, t)
    else (true, record { chars = copy_from t.chars value 0; size = length value })

abbrev pub view : BoundedText → Bytes
view t = take t.size t.chars

pub data TradeSide : Type 0 where
  buy sell : TradeSide

-- `trade`; the texts are what `view()` returns.
pub record Trade : Type 0 where
  pub trade_id : Bytes
  pub product_id : Bytes
  pub price : ℤ
  pub size : ℤ
  pub side : TradeSide
  pub source_time_ns : ℕ
  pub enqueued_ns : ℕ
