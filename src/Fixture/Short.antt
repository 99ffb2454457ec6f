-- ===== src/Fixture/Short.antt =====
-- src/core.cpp `generate_fixture`: its lines are far below the limit of the reader.
use bengal_market.Base.{
  Bool, Bytes, Option, arith, codes, false, if◌then◌else◌, length, some, true, ℕ, ◌%◌, ◌==◌, ◌≡◌,
  ◌≤◌,
}
use bengal_market.Base.Words.{add_u64}
use bengal_market.Capture.Joined.{IsShort}
use bengal_market.Charconv.Print.{length-print_uint}
use bengal_market.Decimal.Length.{length-format_decimal}
use bengal_market.Fixture.{
  fixture_amount, fixture_frame, fixture_metadata, fixture_payload, fixture_price, fixture_trade,
}
use bengal_market.Json.{JsonLib}
use bengal_market.Json.Laws.{IsJson}
use bengal_market.Json.Value.{JsonValue, json_weight}

module _ (product_id : Bytes) (short : length product_id ≤ 20) where
  metadata_weight : json_weight (fixture_metadata product_id) ≤ 2_000
  unfolding json_weight fixture_metadata
  metadata_weight = omega (arith, short)

  payload_weight : (index : ℕ) → json_weight (fixture_payload product_id index) ≤ 4_000
  unfolding json_weight fixture_payload fixture_trade
  payload_weight index = omega (
    arith,
    short,
    (length-print_uint 19 (add_u64 index 1) (omega arith)).1,
    length-format_decimal (fixture_price index) (omega arith),
    length-format_decimal (fixture_amount index) (omega arith),
    side_length (index % 2 == 0),
  )
    where
      side_length : (b : Bool) → length (if b then codes "BUY" else codes "SELL") ≤ 4
      side_length true = omega arith
      side_length false = omega arith

  frame_weight :
      (index : ℕ) (payload : Bytes)
      → length payload ≤ 4_000
      → json_weight (fixture_frame index payload) ≤ 30_000
  unfolding json_weight fixture_frame
  frame_weight index payload h = omega (arith, h)

  module _ {J : JsonLib} {dump : JsonValue → Option Bytes} (V : IsJson J dump) where
    pub metadata-IsShort :
        (line : Bytes) → dump (fixture_metadata product_id) ≡ some line → IsShort line
    metadata-IsShort line e = record {
      unbroken = (V.dump_line _ line e).0;
      fits = omega (arith, V.dump_length _ line e, metadata_weight);
    }

    pub frame-IsShort :
        (index : ℕ) (payload line : Bytes)
        → dump (fixture_payload product_id index) ≡ some payload
        → dump (fixture_frame index payload) ≡ some line
        → IsShort line
    frame-IsShort index payload line e e' =
        let small : length payload ≤ 4_000 =
          omega (arith, V.dump_length _ payload e, payload_weight index) in
        record {
          unbroken = (V.dump_line _ line e').0;
          fits = omega (arith, V.dump_length _ line e', frame_weight index payload small);
        }
