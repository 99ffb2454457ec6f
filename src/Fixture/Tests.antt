-- ===== src/Fixture/Tests.antt =====
-- Tests of src/core.cpp `generate_fixture`: a run of one event, with a file in memory and a table
-- for the JSON library.
use bengal_market.Base.{Bool, Bytes, List, [], arith, codes, false, refl, true, ◌++◌, ◌∷◌, ◌≡◌}
use bengal_market.Capture.{captured, read_capture}
use bengal_market.Charconv.Print.{print_uint}
use bengal_market.Decimal.{format_decimal}
use bengal_market.Effects.{Outcome, returned, ◌>>=◌}
use bengal_market.Fixture.{
  FileStream, fixture_frame, fixture_metadata, fixture_payload, fixture_trade, generate_fixture,
  write_all, write_trade, write_trades,
}
use bengal_market.Fixture.Frame.{reader_at}
use bengal_market.Fixture.Whole.{IsAborted, generate_fixture-read_capture}
use bengal_market.Fixture.Write.{IsFile}
use bengal_market.Json.Same.{same_value}
use bengal_market.Json.Table.{table_dump, table_library, table_library-IsJson}
use bengal_market.Json.Value.{JsonValue, json_weight}

-- The bytes taken, and whether the stream is good.
abbrev memory_file : FileStream
memory_file = record {
  World = Bytes × Bool;
  open_truncated = λ path w. ([], true);
  put = λ t w. (w.0 ++ t, w.1);
  good = λ w. w.1;
}

abbrev memory_file-IsFile : IsFile memory_file
memory_file-IsFile = record {
  content = λ w. w.0;
  opened = λ path w e. refl;
  taken = λ t w e. (e, refl);
}

abbrev fixture_table : List (Bytes × JsonValue)
fixture_table =
    (codes "M", fixture_metadata (codes "BTC-USD"))
    ∷ (codes "P", fixture_payload (codes "BTC-USD") 0)
    ∷ (codes "F", fixture_frame 0 (codes "P"))
    ∷ []

fixture_run :
    generate_fixture memory_file
      (table_dump fixture_table)
      (codes "out.jsonl")
      1
      (codes "BTC-USD")
      ([], false)
    ≡ (returned tt, (codes "M" ++ 10 ∷ codes "F" ++ 10 ∷ [], true))
unfolding generate_fixture write_all write_trades write_trade fixture_metadata fixture_payload
    fixture_frame fixture_trade same_value json_weight ◌>>=◌ print_uint format_decimal
fixture_run = refl

generate_fixture-read_capture_example :
    Outcome
      (λ u s.
        read_capture (table_library fixture_table) (s.0) ≡ captured (reader_at (codes "BTC-USD") 1))
      (IsAborted memory_file (table_dump fixture_table) (codes "BTC-USD") 1 ([], false))
      (generate_fixture memory_file
        (table_dump fixture_table)
        (codes "out.jsonl")
        1
        (codes "BTC-USD")
        ([], false))
generate_fixture-read_capture_example =
    generate_fixture-read_capture memory_file-IsFile (table_library-IsJson fixture_table)
      (codes "out.jsonl") (codes "BTC-USD") 1 (omega arith) ([], false)
