-- ===== src/Capture.antt =====
-- src/core.cpp: `read_bounded_line` and `read_capture`. The reader's variables are a record, and the
-- trades that the consumer is given are kept in it, the oldest first.
pub mod Sequence
pub mod Lines
pub mod Trades
pub mod Records
pub mod Opened
pub mod Reading
pub mod Joined
pub mod Tests
use bengal_market.Base.{
  Bool, Bytes, List, Option, [], codes, eq_text, false, guard, if◌then◌else◌, is_empty, leb, length,
  ltb, none, not, some, suc, true, zero, ℕ, ◌&&◌, ◌*◌, ◌++◌, ◌==◌, ◌>>=◌, ◌>>◌, ◌||◌, ◌∷◌,
}
use bengal_market.Base.Words.{add_u64, sub_u64}
use bengal_market.Decimal.{parse_decimal}
use bengal_market.Json.{JsonLib}
use bengal_market.Model.{Trade, TradeSide, assign, blank, buy, sell, view}
use bengal_market.Report.{ParseMetrics}
use bengal_market.Timestamp.{parse_timestamp_ns}

abbrev pub maximum_record_size : ℕ
maximum_record_size = 8 * 1024 * 1024

abbrev pub maximum_sequence_streams : ℕ
maximum_sequence_streams = 4096

-- What `read_bounded_line` does: a line with the rest of the stream, the end, or an exception.
pub data LineRead : Type 0 where
  got : Bytes → Bytes → LineRead
  end_of_stream too_long : LineRead

-- `line` is what has been read of it.
unfoldable pub read_bounded_line : Bytes → Bytes → LineRead
read_bounded_line line [] = if is_empty line then end_of_stream else got line []
read_bounded_line line (character ∷ stream) =
    let rest = read_bounded_line (line ++ character ∷ []) stream in
    if character == 10
    then got line stream
    else if length line == maximum_record_size
    then too_long
    else rest

pub record Reader : Type 0 where
  pub metrics : ParseMetrics
  pub last_sequences : List (ℕ × ℕ)
  pub metadata_seen : Bool
  pub consumed : List Trade

abbrev pub fresh_reader : Reader
fresh_reader = record {
  metrics = record { frames = 0; parse_errors = 0; sequence_gaps = 0; out_of_order = 0 };
  last_sequences = [];
  metadata_seen = false;
  consumed = [];
}

-- `last_sequences.find`.
unfoldable pub find_sequence : ℕ → List (ℕ × ℕ) → Option ℕ
find_sequence id [] = none
find_sequence id ((i, n) ∷ rest) = if i == id then some n else find_sequence id rest

-- `previous->second = sequence`.
unfoldable pub put_sequence : ℕ → ℕ → List (ℕ × ℕ) → List (ℕ × ℕ)
put_sequence id sequence [] = []
put_sequence id sequence ((i, n) ∷ rest) =
    if i == id then (i, sequence) ∷ rest else (i, n) ∷ put_sequence id sequence rest

-- The counts after a sequence number behind `previous`.
unfoldable pub count_sequence : ℕ → ℕ → ParseMetrics → ParseMetrics
count_sequence sequence previous m =
    if ltb previous sequence && ltb 1 (sub_u64 sequence previous)
    then record m {
      sequence_gaps = add_u64 m.sequence_gaps (sub_u64 (sub_u64 sequence previous) 1);
    }
    else if leb sequence previous
    then record m { out_of_order = add_u64 m.out_of_order 1 }
    else m

unfoldable pub seen_before : Reader → ℕ → ℕ → ℕ → Reader
seen_before r id sequence previous = record r {
  metrics = count_sequence sequence previous r.metrics;
  last_sequences =
      if ltb previous sequence then put_sequence id sequence r.last_sequences else r.last_sequences;
}

-- The tracking of sequence numbers; `none` is the exception.
unfoldable pub note_sequence : Reader → ℕ → ℕ → Option Reader
note_sequence r id sequence = elim (find_sequence id r.last_sequences) [
  | none ↦
      if length r.last_sequences == maximum_sequence_streams
      then none
      else some (record r { last_sequences = (id, sequence) ∷ r.last_sequences })
  | some previous ↦ some (seen_before r id sequence previous)
]

-- The body of a `try`: the reader as it stands, and whether it came to the end.
abbrev pub or_throw : {A : Type 0} → Reader → Option A → (A → Reader × Bool) → Reader × Bool
or_throw r none k = (r, false)
or_throw r (some a) k = k a

abbrev pub text_into : ℕ → Bytes → Option Bytes
text_into capacity s =
    let r = assign capacity (blank capacity) s in if r.0 then some (view r.1) else none

abbrev pub side_of : Bytes → Option TradeSide
side_of s =
    if eq_text s (codes "BUY")
    then some buy
    else if eq_text s (codes "SELL")
    then some sell
    else none

-- A loop goes on where its body came to the end.
abbrev pub and_then : Reader × Bool → (Reader → Reader × Bool) → Reader × Bool
and_then (r, true) k = k r
and_then (r, false) k = (r, false)

-- What `read_capture` does with a stream: the reader's variables at the end, or an exception.
pub data CaptureRead : Type 0 where
  captured : Reader → CaptureRead
  record_too_long no_metadata no_fuel : CaptureRead

module _ (J : JsonLib) where
  open J use {Json}

  abbrev pub text_at : Json → Bytes → Option Bytes
  text_at value key = J.at value key >>= J.get_string

  abbrev pub number_at : Json → Bytes → Option ℕ
  number_at value key = J.at value key >>= J.get_u64

  -- One trade of an event.
  unfoldable pub read_trade : Json → Option Trade
  read_trade input = do
    price_text ← text_at input (codes "price")
    size_text ← text_at input (codes "size")
    side_text ← text_at input (codes "side")
    time ← text_at input (codes "time")
    price ← parse_decimal price_text
    size ← parse_decimal size_text
    timestamp ← parse_timestamp_ns time
    trade_id_text ← text_at input (codes "trade_id")
    trade_id ← text_into 24 trade_id_text
    product_id_text ← text_at input (codes "product_id")
    product_id ← text_into 20 product_id_text
    side ← side_of side_text
    some (record {
      trade_id = trade_id;
      product_id = product_id;
      price = price;
      size = size;
      side = side;
      source_time_ns = timestamp;
      enqueued_ns = 0;
    })

  -- The loop over the trades of an event.
  unfoldable pub take_trades : Reader → List Json → Reader × Bool
  take_trades r [] = (r, true)
  take_trades r (input ∷ rest) =
      or_throw r (read_trade input)
        (λ value. take_trades (record r { consumed = r.consumed ++ value ∷ [] }) rest)

  -- The loop over the events of a payload.
  unfoldable pub take_events : Reader → List Json → Reader × Bool
  take_events r [] = (r, true)
  take_events r (event ∷ rest) =
      or_throw r (J.at event (codes "trades"))
        (λ trades. and_then (take_trades r (J.elements trades)) (λ r'. take_events r' rest))

  unfoldable pub all_products : List Json → Bool
  all_products [] = true
  all_products (p ∷ rest) =
      (elim (J.get_string p) [
        | none ↦ false
        | some product ↦ not (is_empty product || ltb 20 (length product))
      ])
      && all_products rest

  -- The tests of a metadata record; `none` is an exception.
  unfoldable pub metadata_fits : Bool → Json → Option (Unit {0})
  unfolding all_products
  metadata_fits seen value = do
    guard (not seen)
    format ← J.at value (codes "format")
    guard (J.equals_text format (codes "bengal-market-capture"))
    version ← J.at value (codes "version")
    guard (J.equals_number version 1)
    source ← text_at value (codes "source")
    product_ids ← J.at value (codes "product_ids")
    guard (J.is_array product_ids && not (is_empty (J.elements product_ids)))
    guard (all_products (J.elements product_ids))

  -- The fields of a frame: its connection, its payload and the channel.
  unfoldable pub frame_fields : Json → Option (ℕ × (Json × Bytes))
  frame_fields value = do
    received_ns ← number_at value (codes "received_ns")
    connection_id ← number_at value (codes "connection_id")
    text ← text_at value (codes "payload")
    payload ← J.parse text
    channel ← text_at payload (codes "channel")
    some (connection_id, (payload, channel))

  abbrev pub is_data : Bytes → Bool
  is_data channel = eq_text channel (codes "market_trades") || eq_text channel (codes "heartbeats")

  -- A payload whose sequence number has been noted.
  unfoldable pub read_payload : Reader → Json → Bytes → Reader × Bool
  read_payload r payload channel =
      if eq_text channel (codes "market_trades")
      then or_throw r (J.at payload (codes "events")) (λ events. take_events r (J.elements events))
      else (r, true)

  -- A frame, from `++metrics.frames` on.
  unfoldable pub read_frame : Reader → Json → Reader × Bool
  read_frame before value =
      let r = record before {
        metrics = record before.metrics { frames = add_u64 before.metrics.frames 1 };
      } in
      or_throw r (frame_fields value) (λ fields.
        if J.contains fields.1.0 (codes "sequence_num")
        then or_throw r (number_at fields.1.0 (codes "sequence_num")) (λ sequence.
          or_throw r (note_sequence r fields.0 sequence)
            (λ r'. read_payload r' fields.1.0 fields.1.1))
        else (r, not (is_data fields.1.1)))

  unfoldable pub read_typed : Reader → Json → Bytes → Reader × Bool
  read_typed r value type =
      if eq_text type (codes "metadata")
      then or_throw r (metadata_fits r.metadata_seen value)
          (λ u. (record r { metadata_seen = true }, true))
      else if eq_text type (codes "frame") && r.metadata_seen
      then read_frame r value
      else (r, false)

  unfoldable pub read_record : Reader → Bytes → Reader × Bool
  read_record r line =
      or_throw r (J.parse line)
        (λ value. or_throw r (text_at value (codes "type")) (λ type. read_typed r value type))

  -- The `catch`.
  abbrev pub caught : Reader × Bool → Reader
  caught (r, true) = r
  caught (r, false) = record r {
    metrics = record r.metrics { parse_errors = add_u64 r.metrics.parse_errors 1 };
  }

  -- One round of the loop: empty lines are skipped.
  unfoldable pub read_line : Reader → Bytes → Reader
  read_line r line = if is_empty line then r else caught (read_record r line)

  -- The loop, on fuel.
  pub capture_loop : ℕ → Reader → Bytes → CaptureRead
  capture_loop zero r stream = no_fuel
  capture_loop (suc fuel) r stream = elim (read_bounded_line [] stream) [
    | got line rest ↦ capture_loop fuel (read_line r line) rest
    | end_of_stream ↦ if r.metadata_seen then captured r else no_metadata
    | too_long ↦ record_too_long
  ]

  -- Every round takes at least one character.
  unfoldable pub read_capture : Bytes → CaptureRead
  read_capture stream = capture_loop (suc (length stream)) fresh_reader stream
