-- ===== src/Fixture.antt =====
-- src/core.cpp: `generate_fixture`, over the file that it writes and the `dump` of the JSON library.
pub mod Short
pub mod Shown
pub mod Frame
pub mod Metadata
pub mod Write
pub mod Whole
mod Tests
use bengal_market.Base.{
  Bool, Bytes, Option, [], codes, if◌then◌else◌, is_empty, length, ltb, none, not, some, suc, zero,
  ℕ, ◌%◌, ◌*◌, ◌+◌, ◌==◌, ◌||◌, ◌∷◌,
}
use bengal_market.Base.Int.{pos}
use bengal_market.Base.Words.{add_u64, mul_u64}
use bengal_market.Charconv.Print.{print_uint}
use bengal_market.Decimal.{format_decimal}
use bengal_market.Effects.{Action, Done, failure, pure, raised, returned, unless, ◌>>=◌, ◌>>◌}
use bengal_market.Json.Value.{
  JsonValue, json_array, json_item, json_number, json_string, no_items, object_of,
}

-- `std::ofstream`: opened for a path, `<<` of a text, and the test `!stream`.
pub record FileStream : Type 1 where
  pub World : Type 0
  pub open_truncated : Bytes → World → World
  pub put : Bytes → World → World
  pub good : World → Bool

abbrev pub only : JsonValue → JsonValue
only v = json_array (json_item v no_items)

pub fixture_metadata : Bytes → JsonValue
fixture_metadata product_id = object_of (
    (codes "type", json_string (codes "metadata"))
    ∷ (codes "format", json_string (codes "bengal-market-capture"))
    ∷ (codes "version", json_number 1)
    ∷ (codes "source", json_string (codes "deterministic-generator"))
    ∷ (codes "product_ids", only (json_string product_id))
    ∷ [])

-- The sums stay far from the limit of `int64_t`.
abbrev pub fixture_price : ℕ → ℕ
fixture_price index = 3_000_000_000_000 + index % 10_000 * 10_000

abbrev pub fixture_amount : ℕ → ℕ
fixture_amount index = 100_000 + index % 100 * 1_000

abbrev pub fixture_time : Bytes
fixture_time = codes "2026-01-01T00:00:00.000000000Z"

pub fixture_trade : Bytes → ℕ → JsonValue
fixture_trade product_id index = object_of (
    (codes "trade_id", json_string (print_uint (add_u64 index 1)))
    ∷ (codes "product_id", json_string product_id)
    ∷ (codes "price", json_string (format_decimal (pos (fixture_price index))))
    ∷ (codes "size", json_string (format_decimal (pos (fixture_amount index))))
    ∷ (codes "side", json_string (if index % 2 == 0 then codes "BUY" else codes "SELL"))
    ∷ (codes "time", json_string fixture_time)
    ∷ [])

abbrev pub fixture_event : JsonValue → JsonValue
fixture_event input_trade =
    object_of
      ((codes "type", json_string (codes "update")) ∷ (codes "trades", only input_trade) ∷ [])

pub fixture_payload : Bytes → ℕ → JsonValue
unfolding fixture_trade
fixture_payload product_id index = object_of (
    (codes "channel", json_string (codes "market_trades"))
    ∷ (codes "timestamp", json_string fixture_time)
    ∷ (codes "sequence_num", json_number (add_u64 index 1))
    ∷ (codes "events", only (fixture_event (fixture_trade product_id index)))
    ∷ [])

pub fixture_frame : ℕ → Bytes → JsonValue
fixture_frame index payload = object_of (
    (codes "type", json_string (codes "frame"))
    ∷ (codes "received_ns", json_number (mul_u64 index 1_000))
    ∷ (codes "connection_id", json_number 1)
    ∷ (codes "payload", json_string payload)
    ∷ [])

module _ (S : FileStream) (dump : JsonValue → Option Bytes) where
  open S use {World, put}

  -- `dump` throws on a text that is no UTF-8.
  abbrev pub dumped : JsonValue → Action World Bytes
  dumped v s = (elim (dump v) [ none ↦ raised (failure (codes "JSON")) | some t ↦ returned t ], s)

  abbrev pub put_line : Bytes → Action World Done
  put_line line s = (returned tt, put (10 ∷ []) (put line s))

  abbrev pub check_good : Bytes → Action World Done
  check_good what s = unless (S.good s) (failure what) s

  -- One round of the loop.
  pub write_trade : Bytes → ℕ → Action World Done
  unfolding fixture_payload fixture_frame
  write_trade product_id index = do
    payload ← dumped (fixture_payload product_id index)
    line ← dumped (fixture_frame index payload)
    put_line line

  -- The loop from `index` on, by the rounds left.
  pub write_trades : Bytes → ℕ → ℕ → Action World Done
  unfolding write_trade
  write_trades product_id index zero = pure tt
  write_trades product_id index (suc more) =
      write_trade product_id index >> write_trades product_id (index + 1) more

  -- The part of the function from the first test of the stream on.
  unfoldable pub write_all : ℕ → Bytes → Action World Done
  unfolding fixture_metadata write_trades
  write_all event_count product_id = do
    check_good (codes "cannot create fixture")
    metadata ← dumped (fixture_metadata product_id)
    put_line metadata
    write_trades product_id 0 event_count
    check_good (codes "failed writing fixture")

  unfoldable pub generate_fixture : Bytes → ℕ → Bytes → Action World Done
  generate_fixture output event_count product_id = do
    unless (not (event_count == 0)) (failure (codes "event count must be positive"))
    unless (not (is_empty product_id || ltb 20 (length product_id)))
        (failure (codes "product ID must contain 1 to 20 characters"))
    open_stream
    write_all event_count product_id
    where
      open_stream : Action World Done
      open_stream s = (returned tt, S.open_truncated output s)
