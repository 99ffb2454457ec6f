-- ===== src/Capture/Tests.antt =====
-- Tests of the reader, with a small library for values of text: a value is the path to it, and a
-- table gives the texts at the path_library.
use bengal_market.Base.{
  Bool, Bytes, Option, [], arith, codes, eq_text, false, if◌then◌else◌, is_some, none, refl, some,
  true, ◌++◌, ◌>>=◌, ◌||◌, ◌∷◌, ◌≡◌, ◌≢◌,
}
use bengal_market.Capture.{
  CaptureRead, Reader, all_products, capture_loop, captured, count_sequence, find_sequence,
  frame_fields, fresh_reader, metadata_fits, no_fuel, note_sequence, put_sequence,
  read_bounded_line, read_capture, read_frame, read_line, read_payload, read_record, read_trade,
  read_typed, seen_before, take_events, take_trades,
}
use bengal_market.Capture.Lines.{IsLine, read_bounded_line-IsLine, read_capture_ends}
use bengal_market.Capture.Reading.{IsRead, read_capture-IsRead}
use bengal_market.Capture.Sequence.{Accounts, highest, note_all, note_all-fresh_reader}
use bengal_market.Charconv.{from_chars, parse_uint}
use bengal_market.Charconv.Print.{print_uint}
use bengal_market.Cli.{Arguments, find_option}
use bengal_market.Decimal.{parse_decimal}
use bengal_market.Json.{JsonLib}
use bengal_market.Model.{assign}
use bengal_market.Timestamp.{parse_timestamp_ns}

abbrev texts : Arguments
texts =
    (codes "m.type", codes "metadata")
    ∷ (codes "m.format", codes "bengal-market-capture")
    ∷ (codes "m.version", codes "1")
    ∷ (codes "m.source", codes "test")
    ∷ (codes "m.product_ids.0", codes "BTC-USD")
    ∷ (codes "f.type", codes "frame")
    ∷ (codes "f.received_ns", codes "5")
    ∷ (codes "f.connection_id", codes "1")
    ∷ (codes "f.payload", codes "p")
    ∷ (codes "p.channel", codes "market_trades")
    ∷ (codes "p.sequence_num", codes "7")
    ∷ (codes "p.events.0.trades.0.price", codes "1.5")
    ∷ (codes "p.events.0.trades.0.size", codes "2")
    ∷ (codes "p.events.0.trades.0.side", codes "BUY")
    ∷ (codes "p.events.0.trades.0.time", codes "1970-01-02T00:00:00Z")
    ∷ (codes "p.events.0.trades.0.trade_id", codes "42")
    ∷ (codes "p.events.0.trades.0.product_id", codes "BTC-USD")
    ∷ []

abbrev same_text : Option Bytes → Bytes → Bool
same_text none s = false
same_text (some t) s = eq_text t s

abbrev known : Bytes → Option Bytes
known s =
    if eq_text s (codes "m") || eq_text s (codes "f") || eq_text s (codes "p") then some s else none

abbrev pub path_library : JsonLib
path_library = record {
  Json = Bytes;
  parse = known;
  at = λ v key. some (v ++ b'.' ∷ key);
  contains = λ v key. is_some (find_option (v ++ b'.' ∷ key) texts);
  get_string = λ v. find_option v texts;
  get_u64 = λ v. find_option v texts >>= parse_uint;
  is_array = λ v. true;
  elements = λ v. (v ++ codes ".0") ∷ [];
  equals_text = λ v s. same_text (find_option v texts) s;
  equals_number = λ v n. same_text (find_option v texts) (print_uint n);
}

-- A metadata record, and a line that is no record and has no line break.
abbrev pub test_stream : Bytes
test_stream = codes "m" ++ 10 ∷ codes "x"

abbrev reader_of : CaptureRead → Reader
reader_of (captured r) = r
reader_of _ = fresh_reader

abbrev pub read_result : Reader
read_result = reader_of (read_capture path_library test_stream)

pub read_result-captured : read_capture path_library test_stream ≡ captured read_result
unfolding read_capture read_bounded_line capture_loop read_line read_record read_typed metadata_fits
    print_uint read_frame frame_fields parse_uint note_sequence find_sequence read_payload
    take_events take_trades read_trade parse_decimal parse_timestamp_ns all_products count_sequence
    put_sequence seen_before from_chars assign
read_result-captured = refl

read_capture-IsRead_example : IsRead path_library test_stream read_result
read_capture-IsRead_example =
    read_capture-IsRead path_library test_stream read_result (omega arith) read_result-captured

read_capture_ends_example : read_capture path_library test_stream ≢ no_fuel
read_capture_ends_example = read_capture_ends path_library test_stream

read_bounded_line-IsLine_example : IsLine [] test_stream (codes "m") (codes "x")
unfolding read_bounded_line
read_bounded_line-IsLine_example = read_bounded_line-IsLine test_stream (codes "m") (codes "x") refl

note_all-fresh_reader_example :
    (r : Reader) × (note_all fresh_reader 1 (5 ∷ 6 ∷ 9 ∷ 7 ∷ []) ≡ some r)
    × Accounts 1 5 (highest 5 (6 ∷ 9 ∷ 7 ∷ [])) 3 r
note_all-fresh_reader_example =
    note_all-fresh_reader 1 5 (6 ∷ 9 ∷ 7 ∷ []) (omega arith)
      (omega arith, (omega arith, (omega arith, tt))) (omega arith)
